-- ===== src/Gc/Objects.antt =====
-- `gc_blacken_object`: a gray object becomes black and all that it refers to is reached.
use lulu.Prelude.{ℕ, ◌≡◌, sym, ap, ◌∙◌, ◌⊎◌, inl, inr, true, false, Option, some, List, ◌∷◌, arith}
use lulu.Gc.{
  tracing, set_black, Body, upvalue, Global, ◌>>=◌, mark_at, put_mark, closed_value, blacken,
}
use lulu.Gc.Marking.{
  lists, has, is_string, is_upvalue, seen_at, seen_value, IsMarking, Grows, seen-Grows, Marks,
}
use lulu.Gc.Blacken.{references, AllSeen, Fits}
use lulu.Gc.Closures.{seen-blacken, AllSeen-blacken, blacken-IsMarking}

pub upvalue-AllSeen :
    (g : Global) (b : Body)
    → is_upvalue b ≡ true
    → seen_value g (closed_value b) ≡ true
    → AllSeen g (references b)
unfolding references
upvalue-AllSeen g (upvalue v) u s = (s, tt)
upvalue-AllSeen g _ u s = absurd (cc u)

black-blacken :
    (g : Global) (a b : ℕ)
    → (mark_at (blacken g a) b).black ≡ true
    → (b ≡ a) ⊎ ((mark_at g b).black ≡ true)
unfolding put_mark set_black
black-blacken g a b k = ground arith

module _ (bodies : ℕ → Body) where
  -- what blackening the object at an address changes and keeps
  pub record Blackens (g : Global) (a : ℕ) (h : Global) : Type 0 where
    pub fits : Fits bodies h
    pub seens : (b : ℕ) → seen_at g b ≡ true → seen_at h b ≡ true
    pub blacks : (b : ℕ) → (mark_at g b).black ≡ true → (mark_at h b).black ≡ true
    pub fixeds : (b : ℕ) → (mark_at h b).fixed ≡ (mark_at g b).fixed
    pub state : h.gc_state ≡ g.gc_state
    pub same_lists : lists h ≡ lists g
    pub listing : (b : ℕ) → has g.gray b ≡ true → has h.gray b ≡ true
    pub news :
        (b : ℕ)
        → (mark_at h b).black ≡ true
        → ((mark_at g b).black ≡ true) ⊎ AllSeen h (references (bodies b))
    pub fresh :
        (b : ℕ)
        → (mark_at h b).black ≡ true
        → (b ≡ a) ⊎ (((mark_at g b).black ≡ true) ⊎ (is_upvalue (bodies b) ≡ true))
    pub added : (b : ℕ) → has h.gray b ≡ true → (has g.gray b ≡ true) ⊎ ((mark_at g b).white ≡ true)
    pub front :
        (c : ℕ) (more : List ℕ)
        → g.gc_state ≡ tracing
        → g.gray ≡ c ∷ more
        → (others : List ℕ) × (h.gray ≡ c ∷ others)
    pub black : (mark_at h a).black ≡ true
    pub marking : IsMarking h

  news_lem :
      (g h : Global) (b : ℕ)
      → Fits bodies g
      → Grows g h
      → (mark_at h b).black ≡ true
      → ((mark_at g b).black ≡ true) ⊎ AllSeen h (references (bodies b))
  news_lem g h b f p k = elim (p.news b k) [
    | inl k' ↦ inl k'
    | inr (u, s) ↦ inr (upvalue-AllSeen h (bodies b) (rw (f b) at u) (rw (f b) at s))
  ]

  pub blacken-Fits : (g : Global) (a : ℕ) → Fits bodies g → Fits bodies (blacken g a)
  unfolding put_mark
  blacken-Fits g a f b = ground (arith, f b)

  -- an object that is made black before its references are marked
  first-Blackens :
      (g h : Global) (a : ℕ)
      → Fits bodies g
      → Grows (blacken g a) h
      → IsMarking h
      → AllSeen h (references (bodies a))
      → Blackens g a h
  unfolding put_mark set_black
  first-Blackens g h a f p m s = record {
    fits = λ b. p.bodies b ∙ ground (arith, f b);
    seens = λ b k. seen-Grows p b (seen-blacken g a b k);
    blacks = λ b k. p.blacks b (ground arith);
    fixeds = λ b. p.fixeds b ∙ ground arith;
    state = p.state;
    same_lists = p.same_lists;
    listing = λ b k. p.listing b k;
    news = λ b k. elim (news_lem (blacken g a) h b (blacken-Fits g a f) p k) [
      | inr t ↦ inr t
      | inl k' ↦ elim (black-blacken g a b k') [ inl e ↦ inr (rw e s) | inr k'' ↦ inl k'' ]
    ];
    fresh = λ b k. elim (p.news b k) [
      | inr (u, t) ↦ inr (inr (ap is_upvalue (sym (blacken-Fits g a f b)) ∙ u))
      | inl k' ↦ elim (black-blacken g a b k') [ inl e ↦ inl e | inr k'' ↦ inr (inl k'') ]
    ];
    added = λ b k. ground (arith, p.added b);
    front = λ c more t e. p.front c more t e;
    black = p.blacks a (ground arith);
    marking = m;
  }

  -- an object that is made black behind its references
  last-Blackens :
      (g h : Global) (a : ℕ)
      → Fits bodies g
      → Grows g h
      → IsMarking h
      → is_string (bodies a) ≡ false
      → (mark_at g a).white ≡ false
      → AllSeen h (references (bodies a))
      → Blackens g a (blacken h a)
  unfolding put_mark set_black
  last-Blackens g h a f p m n w s = record {
    fits = λ b. ground (arith, p.bodies b, f b);
    seens = λ b k. seen-blacken h a b (seen-Grows p b k);
    blacks = λ b k. ground (arith, p.blacks b);
    fixeds = λ b. ground (arith, p.fixeds b);
    state = p.state;
    same_lists = p.same_lists;
    listing = λ b k. p.listing b k;
    news = λ b k. elim (black-blacken h a b k) [
      | inl e ↦ inr (rw e (AllSeen-blacken h a (references (bodies a)) s))
      | inr k' ↦ elim (news_lem g h b f p k') [
        | inl k'' ↦ inl k''
        | inr t ↦ inr (AllSeen-blacken h a (references (bodies b)) t)
      ]
    ];
    fresh = λ b k. elim (black-blacken h a b k) [
      | inl e ↦ inl e
      | inr k' ↦ elim (p.news b k') [
        | inl k'' ↦ inr (inl k'')
        | inr (u, t) ↦ inr (inr (ap is_upvalue (sym (f b)) ∙ u))
      ]
    ];
    added = λ b k. p.added b k;
    front = λ c more t e. p.front c more t e;
    black = ground arith;
    marking =
        blacken-IsMarking h a m (ground (arith, p.bodies a, f a))
          (inl (ground (arith, p.whites a)));
  }

  -- the result of blackening
  pub record Blackened (g : Global) (a : ℕ) (r : Option Global) : Type 0 where
    pub result : Global
    pub returns : r ≡ some result
    pub blackens : Blackens g a result

  pub first-Blackened :
      (g : Global) (a : ℕ) (r : Option Global)
      → Fits bodies g
      → Marks (blacken g a) (λ h. AllSeen h (references (bodies a))) r
      → Blackened g a r
  first-Blackened g a r f p = record {
    result = p.result;
    returns = p.returns;
    blackens = first-Blackens g p.result a f p.grows p.marking p.holds;
  }

  pub last-Blackened :
      (g : Global) (a : ℕ) (r : Option Global)
      → Fits bodies g
      → is_string (bodies a) ≡ false
      → (mark_at g a).white ≡ false
      → Marks g (λ h. AllSeen h (references (bodies a))) r
      → Blackened g a (r >>= (λ h. some (blacken h a)))
  last-Blackened g a r f n w p = record {
    result = blacken p.result a;
    returns = ap (λ o. o >>= (λ h. some (blacken h a))) p.returns;
    blackens = last-Blackens g p.result a f p.grows p.marking n w p.holds;
  }
