-- ===== src/Gc/Closures.antt =====
-- `gc_blacken_upvalue`, and `gc_blacken_object` on every kind of object.
use lulu.Prelude.{
  ℕ, ◌≡◌, refl, ◌⊎◌, inl, inr, true, false, Option, none, some, List, [], ◌∷◌, arith, Bool-cases,
}
use lulu.Gc.{
  is_gray, set_black, Body, Global, mark_at, body_at, put_mark, closed_value, gc_mark_value,
  blacken, gc_blacken_upvalue, blacken_upvalues,
}
use lulu.Gc.Marking.{
  is_string, is_upvalue, seen_at, seen_value, IsMarking, Grows, Grows-refl, seen-Grows, Marks,
}
use lulu.Gc.Blacken.{
  AllSeen, Marks-bind, Marks-map, is_plain, AllUpvalues, Fits, Fits-Grows, gc_mark_value-Marks,
}

pub seen-blacken : (g : Global) (a b : ℕ) → seen_at g b ≡ true → seen_at (blacken g a) b ≡ true
unfolding put_mark set_black
seen-blacken g a b s = ground arith

pub seen_value-blacken :
    (g : Global) (a : ℕ) (v : Option ℕ) → seen_value g v ≡ true → seen_value (blacken g a) v ≡ true
seen_value-blacken g a none s = refl
seen_value-blacken g a (some b) s = seen-blacken g a b s

pub AllSeen-blacken :
    (g : Global) (a : ℕ) (vs : List (Option ℕ)) → AllSeen g vs → AllSeen (blacken g a) vs
AllSeen-blacken g a [] s = tt
AllSeen-blacken g a (v ∷ vs) (s, more) = (seen_value-blacken g a v s, AllSeen-blacken g a vs more)

-- An upvalue that becomes black, its value reached before.
blacken-Grows :
    (g : Global) (a : ℕ)
    → is_upvalue (body_at g a) ≡ true
    → seen_value g (closed_value (body_at g a)) ≡ true
    → Grows g (blacken g a)
unfolding put_mark set_black
blacken-Grows g a u s = record {
  bodies = λ b. ground arith;
  blacks = λ b k. ground arith;
  whites = λ b k. ground arith;
  fixeds = λ b. ground arith;
  state = refl;
  same_lists = refl;
  listing = λ b k. k;
  added = λ b k. inl k;
  front = λ c more t e. (more, e);
  news = λ b k. ground (arith, seen_value-blacken g a (closed_value (body_at g b)));
}

-- Black objects are not gray, and no string is blackened.
pub blacken-IsMarking :
    (g : Global) (a : ℕ)
    → IsMarking g
    → is_string (body_at g a) ≡ false
    → ((mark_at g a).white ≡ false) ⊎ (is_upvalue (body_at g a) ≡ true)
    → IsMarking (blacken g a)
unfolding put_mark set_black is_gray
blacken-IsMarking g a m n reached = record {
  listed = λ b k n. ground (arith, m.listed b);
  members = λ b k. ground (arith, m.members b);
  strings = λ b k. ground (arith, m.strings b);
  shape = m.shape;
  distinct = m.distinct;
  linked = λ b k. ground (arith, m.linked b);
  clean = λ b k v. ground (arith, m.clean b);
}

seen-black : (g : Global) (a : ℕ) → seen_at (blacken g a) a ≡ true
unfolding put_mark set_black
seen-black g a = ground arith

module _ (bodies : ℕ → Body) where
  gc_blacken_upvalue-Marks :
      (g : Global) (a : ℕ)
      → Fits bodies g
      → IsMarking g
      → is_upvalue (bodies a) ≡ true
      → is_plain bodies (closed_value (bodies a)) ≡ true
      → Marks g (λ h. seen_at h a ≡ true) (gc_blacken_upvalue g (some a))
  unfolding gc_blacken_upvalue
  gc_blacken_upvalue-Marks g a f m u p = elim (Bool-cases (mark_at g a).black) [
    | inl k ↦ record {
      result = g;
      returns = rw (k, gc_blacken_upvalue) refl;
      grows = Grows-refl g;
      marking = m;
      holds = ground arith;
    }
    | inr k ↦
        rw (k, f a, gc_blacken_upvalue)
          (Marks-bind _ (gc_mark_value g (closed_value (bodies a))) _
            (gc_mark_value-Marks bodies g (closed_value (bodies a)) f m p)
            (λ h grows kept s. record {
              result = blacken h a;
              returns = refl;
              grows =
                  blacken-Grows h a (ground (arith, grows.bodies a, f a))
                    (rw (grows.bodies a, f a) s);
              marking =
                  blacken-IsMarking h a kept (ground (arith, grows.bodies a, f a))
                    (inr (ground (arith, grows.bodies a, f a)));
              holds = seen-black h a;
            }))
  ]

  -- every upvalue has a plain value
  abbrev pub PlainUpvalues : Type 0
  PlainUpvalues = (a : ℕ) → is_plain bodies (closed_value (bodies a)) ≡ true

  pub blacken_upvalues-Marks :
      (g : Global) (ups : List (Option ℕ))
      → Fits bodies g
      → IsMarking g
      → PlainUpvalues
      → AllUpvalues bodies ups
      → Marks g (λ h. AllSeen h ups) (blacken_upvalues g ups)
  unfolding blacken_upvalues gc_blacken_upvalue
  blacken_upvalues-Marks g [] f m p u = record {
    result = g;
    returns = refl;
    grows = Grows-refl g;
    marking = m;
    holds = tt;
  }
  blacken_upvalues-Marks g (none ∷ ups) f m p u =
      Marks-map (blacken_upvalues-Marks g ups f m p u) (λ h grows s. (refl, s))
  blacken_upvalues-Marks g (some a ∷ ups) f m p (u, more) =
      Marks-bind _ (gc_blacken_upvalue g (some a)) _ (gc_blacken_upvalue-Marks g a f m u (p a))
        (λ h grows kept s.
          Marks-map (blacken_upvalues-Marks h ups (Fits-Grows bodies f grows) kept p more)
            (λ i grows' all. (seen-Grows grows' a s, all)))
