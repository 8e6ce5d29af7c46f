-- ===== src/Gc/Blacken.antt =====
-- The functions that blacken an object mark all that it refers to.
use lulu.Prelude.{
  ℕ, ◌≡◌, refl, ap, ◌∙◌, Bool, true, not, Option, none, some, List, [], ◌∷◌, ◌++◌, map, arith,
}
use lulu.Gc.{
  Body, string, table, chunk, closure_c, closure_lua, userdata, upvalue, Global, ◌>>=◌, body_at,
  closed_value, gc_mark_object, gc_mark_value, gc_mark_array, mark_objects, mark_entries,
}
use lulu.Gc.Marking.{
  is_upvalue, seen_value, IsMarking, Grows, Grows-refl, Grows-trans, seen-Grows, seen_value-Grows,
  Marks, gc_mark_object-Marks,
}

abbrev pub entry_values : List (Option ℕ × Option ℕ) → List (Option ℕ)
entry_values [] = []
entry_values ((k, v) ∷ es) = k ∷ v ∷ entry_values es

-- what an object refers to
unfoldable pub references : Body → List (Option ℕ)
references string = []
references (table metatable array entries) = metatable ∷ (array ++ entry_values entries)
references (chunk locals upvalues constants children source) =
    map some locals ++ (map some upvalues ++ (constants ++ (map some children ++ some source ∷ [])))
references (closure_c upvalues) = upvalues
references (closure_lua p upvalues) = some p ∷ upvalues
references (userdata metatable) = metatable ∷ []
references (upvalue v) = closed_value (upvalue v) ∷ []

abbrev pub AllSeen : Global → List (Option ℕ) → Type 0
AllSeen g [] = Unit
AllSeen g (v ∷ vs) = (seen_value g v ≡ true) × AllSeen g vs

pub AllSeen-Grows : {g h : Global} (vs : List (Option ℕ)) → Grows g h → AllSeen g vs → AllSeen h vs
AllSeen-Grows [] p s = tt
AllSeen-Grows (v ∷ vs) p (s, more) = (seen_value-Grows p v s, AllSeen-Grows vs p more)

pub AllSeen-append :
    (g : Global) (vs ws : List (Option ℕ)) → AllSeen g vs → AllSeen g ws → AllSeen g (vs ++ ws)
AllSeen-append g [] ws s t = t
AllSeen-append g (v ∷ vs) ws (s, more) t = (s, AllSeen-append g vs ws more t)

pub Marks-bind :
    {g : Global} {S : Global → Type 0} (T : Global → Type 0) (r : Option Global)
    (f : Global → Option Global)
    → Marks g S r
    → ((h : Global) → Grows g h → IsMarking h → S h → Marks h T (f h))
    → Marks g T (r >>= f)
Marks-bind {g} {S} T r f p q =
    let i : Marks p.result T (f p.result) = q p.result p.grows p.marking p.holds in
    record {
      result = i.result;
      returns = ap (λ o. o >>= f) p.returns ∙ i.returns;
      grows = Grows-trans p.grows i.grows;
      marking = i.marking;
      holds = i.holds;
    }

pub Marks-map :
    {g : Global} {S T : Global → Type 0} {r : Option Global}
    → Marks g S r
    → ((h : Global) → Grows g h → S h → T h)
    → Marks g T r
Marks-map p q = record {
  result = p.result;
  returns = p.returns;
  grows = p.grows;
  marking = p.marking;
  holds = q p.result p.grows p.holds;
}

-- The bodies of the objects: nothing but an upvalue of a Lua closure is a pointer to an upvalue.
module _ (bodies : ℕ → Body) where
  abbrev pub is_plain : Option ℕ → Bool
  is_plain none = true
  is_plain (some a) = not (is_upvalue (bodies a))

  abbrev pub AllPlain : List (Option ℕ) → Type 0
  AllPlain [] = Unit
  AllPlain (v ∷ vs) = (is_plain v ≡ true) × AllPlain vs

  abbrev pub AllUpvalues : List (Option ℕ) → Type 0
  AllUpvalues [] = Unit
  AllUpvalues (none ∷ vs) = AllUpvalues vs
  AllUpvalues (some a ∷ vs) = (is_upvalue (bodies a) ≡ true) × AllUpvalues vs

  abbrev pub Typed : Body → Type 0
  Typed (closure_lua p upvalues) = (is_plain (some p) ≡ true) × AllUpvalues upvalues
  Typed b = AllPlain (references b)

  abbrev pub Fits : Global → Type 0
  Fits g = (a : ℕ) → body_at g a ≡ bodies a

  pub Fits-Grows : {g h : Global} → Fits g → Grows g h → Fits h
  Fits-Grows f p a = p.bodies a ∙ f a

  pub AllPlain-append : (vs ws : List (Option ℕ)) → AllPlain (vs ++ ws) → AllPlain vs × AllPlain ws
  AllPlain-append [] ws p = (tt, p)
  AllPlain-append (v ∷ vs) ws (p, more) = let (a, b) = AllPlain-append vs ws more in ((p, a), b)

  pub gc_mark_value-Marks :
      (g : Global) (v : Option ℕ)
      → Fits g
      → IsMarking g
      → is_plain v ≡ true
      → Marks g (λ h. seen_value h v ≡ true) (gc_mark_value g v)
  unfolding gc_mark_value
  gc_mark_value-Marks g none f m p = record {
    result = g;
    returns = refl;
    grows = Grows-refl g;
    marking = m;
    holds = refl;
  }
  gc_mark_value-Marks g (some a) f m p = gc_mark_object-Marks g a m (ground (arith, f a))

  pub gc_mark_array-Marks :
      (g : Global) (vs : List (Option ℕ))
      → Fits g
      → IsMarking g
      → AllPlain vs
      → Marks g (λ h. AllSeen h vs) (gc_mark_array g vs)
  unfolding gc_mark_array
  gc_mark_array-Marks g [] f m p = record {
    result = g;
    returns = refl;
    grows = Grows-refl g;
    marking = m;
    holds = tt;
  }
  gc_mark_array-Marks g (v ∷ vs) f m (p, more) =
      Marks-bind _ (gc_mark_value g v) _ (gc_mark_value-Marks g v f m p) (λ h grows kept s.
        Marks-map (gc_mark_array-Marks h vs (Fits-Grows f grows) kept more)
          (λ i grows' all. (seen_value-Grows grows' v s, all)))

  pub mark_objects-Marks :
      (g : Global) (vs : List ℕ)
      → Fits g
      → IsMarking g
      → AllPlain (map some vs)
      → Marks g (λ h. AllSeen h (map some vs)) (mark_objects g vs)
  unfolding mark_objects
  mark_objects-Marks g [] f m p = record {
    result = g;
    returns = refl;
    grows = Grows-refl g;
    marking = m;
    holds = tt;
  }
  mark_objects-Marks g (v ∷ vs) f m (p, more) =
      Marks-bind _ (gc_mark_object g v) _ (gc_mark_object-Marks g v m (ground (arith, f v)))
        (λ h grows kept s.
          Marks-map (mark_objects-Marks h vs (Fits-Grows f grows) kept more)
            (λ i grows' all. (seen-Grows grows' v s, all)))

  pub mark_entries-Marks :
      (g : Global) (es : List (Option ℕ × Option ℕ))
      → Fits g
      → IsMarking g
      → AllPlain (entry_values es)
      → Marks g (λ h. AllSeen h (entry_values es)) (mark_entries g es)
  unfolding mark_entries
  mark_entries-Marks g [] f m p = record {
    result = g;
    returns = refl;
    grows = Grows-refl g;
    marking = m;
    holds = tt;
  }
  mark_entries-Marks g ((k, v) ∷ es) f m (p, (q, more)) =
      Marks-bind _ (gc_mark_value g k) _ (gc_mark_value-Marks g k f m p) (λ h grows kept s.
        Marks-bind _ (gc_mark_value h v) _ (gc_mark_value-Marks h v (Fits-Grows f grows) kept q)
          (λ i grows' kept' t.
            Marks-map (mark_entries-Marks i es (Fits-Grows (Fits-Grows f grows) grows') kept' more)
              (λ j last all. (
                seen_value-Grows (Grows-trans grows' last) k s,
                (seen_value-Grows last v t, all),
              ))))
