-- ===== src/Gc/Bodies.antt =====
-- `gc_blacken_object` on the bodies of the objects.
use lulu.Prelude.{
  ℕ, ◌≡◌, refl, sym, ap, ◌∙◌, true, false, Option, none, some, List, [], ◌∷◌, ◌++◌, map, inl, arith,
}
use lulu.Gc.{
  Mark, is_gray, Body, string, table, chunk, closure_c, closure_lua, userdata, upvalue, Global,
  ◌>>=◌, mark_at, gc_mark_object, gc_mark_value, gc_mark_array, mark_objects, mark_entries, blacken,
  blacken_upvalues, gc_blacken_chunk, gc_blacken_table, gc_blacken_userdata, blacken_closure_c,
  blacken_closure_lua, blacken_body, gc_blacken_object,
}
use lulu.Gc.Marking.{is_string, is_upvalue, IsMarking, seen_value-Grows, Marks}
use lulu.Gc.Blacken.{
  references, AllSeen, AllSeen-Grows, AllSeen-append, Marks-bind, Marks-map, is_plain, AllPlain,
  AllPlain-append, AllUpvalues, Typed, Fits, Fits-Grows, gc_mark_value-Marks, gc_mark_array-Marks,
  mark_objects-Marks, mark_entries-Marks, entry_values,
}
use lulu.Gc.Closures.{blacken-IsMarking, PlainUpvalues, blacken_upvalues-Marks}
use lulu.Gc.Objects.{Blackened, blacken-Fits, first-Blackened, last-Blackened}

pub bind_assoc :
    (o : Option Global) (f g : Global → Option Global)
    → ((o >>= f) >>= g) ≡ (o >>= (λ h. f h >>= g))
bind_assoc none f g = refl
bind_assoc (some h) f g = refl

gray_white : (m : Mark) → is_gray m ≡ true → m.white ≡ false
unfolding is_gray
gray_white m k = ground arith

module _ (bodies : ℕ → Body) where
  -- what is marked of a list, then the rest
  then_Marks :
      (g : Global) (vs ws : List (Option ℕ)) (r : Option Global) (f : Global → Option Global)
      → Fits bodies g
      → AllPlain bodies (vs ++ ws)
      → (AllPlain bodies vs → Marks g (λ h. AllSeen h vs) r)
      → ((h : Global)
          → Fits bodies h
          → IsMarking h
          → AllPlain bodies ws
          → Marks h (λ i. AllSeen i ws) (f h))
      → Marks g (λ h. AllSeen h (vs ++ ws)) (r >>= f)
  then_Marks g vs ws r f fits p now later =
      let (a, b) = AllPlain-append bodies vs ws p in
      Marks-bind _ r f (now a) (λ h grows kept s.
        Marks-map (later h (Fits-Grows bodies fits grows) kept b)
          (λ i grows' t. AllSeen-append i vs ws (AllSeen-Grows vs grows' s) t))

  value_Marks :
      (g : Global) (v : Option ℕ)
      → Fits bodies g
      → IsMarking g
      → AllPlain bodies (v ∷ [])
      → Marks g (λ h. AllSeen h (v ∷ [])) (gc_mark_value g v)
  value_Marks g v f m p = Marks-map (gc_mark_value-Marks bodies g v f m p.0) (λ h grows s. (s, tt))

  source_Marks :
      (g : Global) (a : ℕ)
      → Fits bodies g
      → IsMarking g
      → AllPlain bodies (some a ∷ [])
      → Marks g (λ h. AllSeen h (some a ∷ [])) (gc_mark_object g a)
  unfolding gc_mark_value
  source_Marks g a f m p = value_Marks g (some a) f m p

  table_Marks :
      (g : Global) (m : Option ℕ) (array : List (Option ℕ)) (entries : List (Option ℕ × Option ℕ))
      → Fits bodies g
      → IsMarking g
      → AllPlain bodies (m ∷ (array ++ entry_values entries))
      → Marks g
          (λ h. AllSeen h (m ∷ (array ++ entry_values entries)))
          (gc_mark_value g m >>= (λ h. gc_mark_array h array >>= (λ i. mark_entries i entries)))
  table_Marks g m array entries f k p =
      then_Marks g (m ∷ []) (array ++ entry_values entries) _ _ f p (λ q. value_Marks g m f k q)
        (λ h f' k' q.
          then_Marks h array (entry_values entries) _ _ f' q
            (λ r. gc_mark_array-Marks bodies h array f' k' r)
            (λ i f'' k'' r. mark_entries-Marks bodies i entries f'' k'' r))

  chunk_Marks :
      (g : Global) (locals upvalues : List ℕ) (constants : List (Option ℕ)) (children : List ℕ)
      (source : ℕ)
      → Fits bodies g
      → IsMarking g
      → AllPlain bodies (references (chunk locals upvalues constants children source))
      → Marks g
          (λ h. AllSeen h (references (chunk locals upvalues constants children source)))
          (mark_objects g locals >>= (λ h. mark_objects h upvalues >>= (λ i.
            gc_mark_array i constants
            >>= (λ j. mark_objects j children >>= (λ k. gc_mark_object k source)))))
  unfolding references
  chunk_Marks g locals upvalues constants children source f m p =
      then_Marks g (map some locals) _ _ _ f p (λ q. mark_objects-Marks bodies g locals f m q)
        (λ h f m p.
          then_Marks h (map some upvalues) _ _ _ f p
            (λ q. mark_objects-Marks bodies h upvalues f m q)
            (λ h f m p.
              then_Marks h constants _ _ _ f p (λ q. gc_mark_array-Marks bodies h constants f m q)
                (λ h f m p.
                  then_Marks h (map some children) _ _ _ f p
                    (λ q. mark_objects-Marks bodies h children f m q)
                    (λ h f m p. source_Marks h source f m p))))

  lua_Marks :
      (g : Global) (p : ℕ) (ups : List (Option ℕ))
      → Fits bodies g
      → IsMarking g
      → PlainUpvalues bodies
      → (is_plain bodies (some p) ≡ true) × AllUpvalues bodies ups
      → Marks g
          (λ h. AllSeen h (some p ∷ ups))
          (gc_mark_object g p >>= (λ h. blacken_upvalues h ups))
  unfolding gc_mark_value
  lua_Marks g p ups f m plain (q, u) =
      Marks-bind _ (gc_mark_object g p) _ (gc_mark_value-Marks bodies g (some p) f m q)
        (λ h grows kept s.
          Marks-map (blacken_upvalues-Marks bodies h ups (Fits-Grows bodies f grows) kept plain u)
            (λ i grows' all. (seen_value-Grows grows' (some p) s, all)))

  first_black :
      (g : Global) (a : ℕ) (r : Option Global)
      → Fits bodies g
      → IsMarking g
      → is_string (bodies a) ≡ false
      → (mark_at g a).white ≡ false
      → (Fits bodies (blacken g a)
          → IsMarking (blacken g a)
          → Marks (blacken g a) (λ h. AllSeen h (references (bodies a))) r)
      → Blackened bodies g a r
  first_black g a r f m n w p =
      first-Blackened bodies g a r f
        (p (blacken-Fits bodies g a f) (blacken-IsMarking g a m (ap is_string (f a) ∙ n) (inl w)))

  blacken_body-Blackened :
      (g : Global) (a : ℕ) (b : Body)
      → bodies a ≡ b
      → Fits bodies g
      → IsMarking g
      → PlainUpvalues bodies
      → Typed bodies b
      → is_string b ≡ false
      → is_upvalue b ≡ false
      → (mark_at g a).white ≡ false
      → Blackened bodies g a (blacken_body g a b)
  unfolding blacken_body gc_blacken_table gc_blacken_chunk gc_blacken_userdata blacken_closure_c
      blacken_closure_lua references
  blacken_body-Blackened g a string e f m plain t n u w = absurd (cc n)
  blacken_body-Blackened g a (upvalue v) e f m plain t n u w = absurd (cc u)
  blacken_body-Blackened g a (table metatable array entries) e f m plain t n u w =
      first_black g a _ f m (ap is_string e ∙ n) w
        (λ f m. rw e (table_Marks (blacken g a) metatable array entries f m t))
  blacken_body-Blackened g a (chunk locals upvalues constants children source) e f m plain t n u w =
      first_black g a _ f m (ap is_string e ∙ n) w
        (λ f m. rw e (chunk_Marks (blacken g a) locals upvalues constants children source f m t))
  blacken_body-Blackened g a (userdata metatable) e f m plain t n u w =
      first_black g a _ f m (ap is_string e ∙ n) w
        (λ f m. rw e (value_Marks (blacken g a) metatable f m t))
  blacken_body-Blackened g a (closure_c upvalues) e f m plain t n u w =
      last-Blackened bodies g a _ f (ap is_string e ∙ n) w
        (rw e (gc_mark_array-Marks bodies g upvalues f m t))
  blacken_body-Blackened g a (closure_lua p upvalues) e f m plain t n u w =
      rw
        (sym (
          bind_assoc (gc_mark_object g p) (λ h. blacken_upvalues h upvalues)
            (λ h. some (blacken h a))))
        (last-Blackened bodies g a _ f (ap is_string e ∙ n) w
          (rw e (lua_Marks g p upvalues f m plain t)))

  -- Where the roots are marked or the references are traced, the gray list is well formed (IsMarking),
  -- which in the trace phase means that its tail is set, and the references of an object are of the
  -- kinds that its members have, a gray object that is neither a string nor an upvalue is blackened
  -- without a failed assertion: it is black then, all that it refers to is reached, and the gray list
  -- still holds the gray objects.
  pub gc_blacken_object-Blackened :
      (g : Global) (a : ℕ)
      → Fits bodies g
      → IsMarking g
      → PlainUpvalues bodies
      → Typed bodies (bodies a)
      → is_gray (mark_at g a) ≡ true
      → is_string (bodies a) ≡ false
      → is_upvalue (bodies a) ≡ false
      → Blackened bodies g a (gc_blacken_object g a)
  unfolding gc_blacken_object
  gc_blacken_object-Blackened g a f m plain t k n u =
      rw (k, f a, gc_blacken_object)
        (blacken_body-Blackened g a (bodies a) refl f m plain t n u (gray_white (mark_at g a) k))
