-- ===== src/Chunk/LineSearch.antt =====
-- The binary search of `chunk_line_get` (cpp/src/chunk.cpp).
use lulu.Prelude.{
  ℕ, zero, suc, ◌+◌, ◌-◌, ◌/◌, ◌≤◌, ◌<◌, ◌≡◌, arith, List, some, ltb, length, get_elem?,
  get_elem?-some, lt_of_get_elem?, get_elem?-beyond, Bool-cases, inl, inr, ap, ltb→lt, lt→ltb,
  ge→ltb,
}
use native.Mathlib.Decide.{dec_lt, ℕ_discrete}
use lulu.Chunk.{LineInfo, found, out_of_bounds, search_lines, chunk_line_get}

-- The ranges are not empty, and each ends before the later ones start.
pub record IsOrdered (lines : List LineInfo) : Type 0 where
  pub nonempty : (i : ℕ) (a : LineInfo) → get_elem? lines i ≡ some a → a.start_pc ≤ a.end_pc
  pub apart :
      (i j : ℕ) (a b : LineInfo)
      → get_elem? lines i ≡ some a
      → get_elem? lines j ≡ some b
      → i < j
      → a.end_pc < b.start_pc

module _ (lines : List LineInfo) (ordered : IsOrdered lines) (k : ℕ) (e : LineInfo)
    (at : get_elem? lines k ≡ some e) (pc : ℕ) (lo : e.start_pc ≤ pc) (hi : pc ≤ e.end_pc) where
  same : (i : ℕ) (a : LineInfo) → get_elem? lines i ≡ some a → i ≡ k → a ≡ e
  same i a h q = let h' : get_elem? lines k ≡ some a = rw q at h in cc

  -- Where the probe misses, the entry that covers `pc` is on the side that the search keeps.
  below : (i : ℕ) (a : LineInfo) → get_elem? lines i ≡ some a → pc < a.start_pc → k < i
  below i a h miss = elim (ℕ_discrete i k) [
    | yes q ↦ absurd (let s = same i a h q in ground (arith, ap LineInfo.start_pc s))
    | no q ↦ elim (dec_lt i k) [
      | yes p ↦ absurd (omega (arith, ordered.apart i k a e h at p, ordered.nonempty i a h))
      | no p ↦ omega arith
    ]
  ]

  above : (i : ℕ) (a : LineInfo) → get_elem? lines i ≡ some a → a.end_pc < pc → i < k
  above i a h miss = elim (ℕ_discrete i k) [
    | yes q ↦ absurd (let s = same i a h q in ground (arith, ap LineInfo.end_pc s))
    | no q ↦ elim (dec_lt k i) [
      | yes p ↦ absurd (omega (arith, ordered.apart k i e a at h p, ordered.nonempty i a h))
      | no p ↦ omega arith
    ]
  ]

  hit :
      (i : ℕ) (a : LineInfo) → get_elem? lines i ≡ some a → a.start_pc ≤ pc → pc ≤ a.end_pc → a ≡ e
  hit i a h p q = elim (ℕ_discrete i k) [
    | yes r ↦ same i a h r
    | no r ↦ elim (dec_lt i k) [
      | yes s ↦ absurd (omega (arith, ordered.apart i k a e h at s))
      | no s ↦ absurd (omega (arith, ordered.apart k i e a at h (omega arith)))
    ]
  ]

  search_lines-found :
      (fuel left stop : ℕ)
      → left ≤ k
      → k < stop
      → stop ≤ length lines + 1
      → stop < fuel + left
      → search_lines fuel lines pc left stop ≡ found e.line
  unfolding search_lines
  search_lines-found zero left stop lk ks sl enough = absurd (omega arith)
  search_lines-found (suc fuel) left stop lk ks sl enough =
      let i = (left + (stop - 1)) / 2 in
      let (a, h) = get_elem?-some lines i (omega (arith, lt_of_get_elem? lines k e at)) in
      rw (lt→ltb left stop (omega arith), h, search_lines)
        (elim (Bool-cases (ltb pc a.start_pc)) [
          | inl p ↦ rw p (
              search_lines-found fuel left i lk (below i a h (ltb→lt pc a.start_pc p)) (omega arith)
                (omega arith))
          | inr p ↦ rw p (elim (Bool-cases (ltb a.end_pc pc)) [
            | inl q ↦ rw q (
                search_lines-found fuel (i + 1) stop
                  (omega (arith, above i a h (ltb→lt a.end_pc pc q))) ks sl (omega arith))
            | inr q ↦
                rw q (ap (λ (x : LineInfo). found x.line) (hit i a h (ground arith) (ground arith)))
          ])
        ])

chunk_line_get-search :
    (lines : List LineInfo) (pc : ℕ)
    → 0 < length lines
    → chunk_line_get lines pc ≡ search_lines (length lines + 2) lines pc 0 (length lines + 1)
unfolding chunk_line_get
chunk_line_get-search lines pc h = ground arith

-- In an ordered table the search finds the line of the entry that covers the instruction.
pub chunk_line_get-found :
    (lines : List LineInfo) (k pc : ℕ) (e : LineInfo)
    → IsOrdered lines
    → get_elem? lines k ≡ some e
    → e.start_pc ≤ pc
    → pc ≤ e.end_pc
    → chunk_line_get lines pc ≡ found e.line
chunk_line_get-found lines k pc e o at lo hi =
    let inside = lt_of_get_elem? lines k e at in
    rw (chunk_line_get-search lines pc (omega arith)) (
      search_lines-found lines o k e at pc lo hi (length lines + 2) 0 (length lines + 1)
        (omega arith) (omega arith) (omega arith) (omega arith))

search_lines-beyond :
    (lines : List LineInfo) (pc fuel left : ℕ)
    → ((i : ℕ) (a : LineInfo) → get_elem? lines i ≡ some a → (a.start_pc ≤ pc) × (a.end_pc < pc))
    → left ≤ length lines
    → length lines + 1 < fuel + left
    → search_lines fuel lines pc left (length lines + 1) ≡ out_of_bounds
unfolding search_lines
search_lines-beyond lines pc zero left all le enough = absurd (omega arith)
search_lines-beyond lines pc (suc fuel) left all le enough =
    let i = (left + (length lines + 1 - 1)) / 2 in
    rw (lt→ltb left (length lines + 1) (omega arith)) (elim (dec_lt i (length lines)) [
      | yes p ↦
          let (a, h) = get_elem?-some lines i p in
          let (lo, hi) = all i a h in
          rw (h, search_lines, ge→ltb pc a.start_pc lo, lt→ltb a.end_pc pc hi)
            (search_lines-beyond lines pc fuel (i + 1) all (omega arith) (omega arith))
      | no p ↦ rw (get_elem?-beyond lines i (omega arith), search_lines)
    ])

-- For an instruction behind every entry the search reads outside the table.
pub chunk_line_get-beyond :
    (lines : List LineInfo) (pc : ℕ)
    → 0 < length lines
    → ((i : ℕ) (a : LineInfo) → get_elem? lines i ≡ some a → (a.start_pc ≤ pc) × (a.end_pc < pc))
    → chunk_line_get lines pc ≡ out_of_bounds
chunk_line_get-beyond lines pc some_entry all =
    rw (chunk_line_get-search lines pc some_entry)
      (search_lines-beyond lines pc (length lines + 2) 0 all (omega arith) (omega arith))
