-- ===== src/Chunk/LinePush.antt =====
-- `chunk_line_push` (cpp/src/chunk.cpp) as a run-length encoding of the lines of the instructions.
use lulu.Prelude.{
  ℕ, zero, suc, ◌+◌, ◌-◌, ◌≤◌, ◌≡◌, refl, ◌∙◌, sym, ap, arith, List, [], ◌∷◌, ◌++◌, some, ◌==◌,
  ==_iff, if◌then◌else◌, length, get_elem?, set, replicate, Bool-cases, inl, inr,
}
use mathlib.Core.List.{append-nil, append_assoc}
use lulu.Chunk.{LineInfo}

abbrev pub entry : ℕ → ℕ → LineInfo
entry line pc = record { line = line; start_pc = pc; end_pc = pc }

-- The entries from `s` on touch one another, and end before `stop`.
abbrev pub IsTiled : ℕ → List LineInfo → ℕ → Type 0
IsTiled s [] stop = s ≡ stop
IsTiled s (e ∷ es) stop = (e.start_pc ≡ s) × (s ≤ e.end_pc) × IsTiled (e.end_pc + 1) es stop

-- The lines that a table stands for, one for each instruction.
unfoldable pub decode : List LineInfo → List ℕ
decode [] = []
decode (e ∷ es) = replicate (e.end_pc + 1 - e.start_pc) e.line ++ decode es

-- What a push means for the table as a list.
unfoldable pub record_line : List LineInfo → ℕ → ℕ → List LineInfo
record_line [] pc line = entry line pc ∷ []
record_line (e ∷ []) pc line =
    if e.line == line then record e { end_pc = pc } ∷ [] else e ∷ entry line pc ∷ []
record_line (e ∷ f ∷ es) pc line = e ∷ record_line (f ∷ es) pc line

replicate_snoc : (n m x : ℕ) → m ≡ suc n → replicate m x ≡ replicate n x ++ x ∷ []
replicate_snoc zero m x h = rw h
replicate_snoc (suc n) m x h = rw h (ap (λ l. x ∷ l) (replicate_snoc n (suc n) x refl))

pub record_line-IsTiled :
    (s : ℕ) (xs : List LineInfo) (pc line : ℕ)
    → IsTiled s xs pc
    → IsTiled s (record_line xs pc line) (pc + 1)
unfolding record_line
record_line-IsTiled s [] pc line h = ground arith
record_line-IsTiled s (e ∷ []) pc line h = ground arith
record_line-IsTiled s (e ∷ f ∷ es) pc line h =
    (h.0, h.1, record_line-IsTiled (e.end_pc + 1) (f ∷ es) pc line h.2)

pub decode-record_line :
    (s : ℕ) (xs : List LineInfo) (pc line : ℕ)
    → IsTiled s xs pc
    → decode (record_line xs pc line) ≡ decode xs ++ line ∷ []
unfolding record_line decode
decode-record_line s [] pc line h = let e : pc + 1 - pc ≡ 1 = omega arith in rw e
decode-record_line s (e ∷ []) pc line h = elim (Bool-cases (e.line == line)) [
  | inl same ↦
      let l = (==_iff e.line line).0 same in
      rw (same, append-nil, append-nil)
        (replicate_snoc (e.end_pc + 1 - e.start_pc) (pc + 1 - e.start_pc) e.line (omega arith)
          ∙ ap (λ (x : ℕ). replicate (e.end_pc + 1 - e.start_pc) e.line ++ x ∷ []) l)
  | inr other ↦ let one : pc + 1 - pc ≡ 1 = omega arith in rw other (simp (append-nil, one))
]
decode-record_line s (e ∷ f ∷ es) pc line h =
    ap (λ l. replicate (e.end_pc + 1 - e.start_pc) e.line ++ l)
      (decode-record_line (e.end_pc + 1) (f ∷ es) pc line h.2)
    ∙ sym
        (append_assoc (replicate (e.end_pc + 1 - e.start_pc) e.line) (decode (f ∷ es)) (line ∷ []))

-- The last entry is where the tiling stops.
pub last-IsTiled :
    (s : ℕ) (xs : List LineInfo) (pc i : ℕ) (last : LineInfo)
    → IsTiled s xs pc
    → length xs ≡ suc i
    → get_elem? xs i ≡ some last
    → (last.start_pc ≤ last.end_pc) × (last.end_pc + 1 ≡ pc)
last-IsTiled s [] pc i last h n at = absurd (omega arith)
last-IsTiled s (e ∷ []) pc zero last h n at = ground arith
last-IsTiled s (e ∷ []) pc (suc i) last h n at = cc
last-IsTiled s (e ∷ f ∷ es) pc zero last h n at = absurd (omega arith)
last-IsTiled s (e ∷ f ∷ es) pc (suc i) last h n at =
    last-IsTiled (e.end_pc + 1) (f ∷ es) pc i last h.2 (omega arith) at

pub record_line-last :
    (xs : List LineInfo) (pc line i : ℕ) (last : LineInfo)
    → length xs ≡ suc i
    → get_elem? xs i ≡ some last
    → record_line xs pc line ≡ (
        if last.line == line
        then set xs i (record last { end_pc = pc })
        else xs ++ entry line pc ∷ [])
unfolding record_line
record_line-last [] pc line i last n at = absurd (omega arith)
record_line-last (e ∷ []) pc line zero last n at = ground arith
record_line-last (e ∷ []) pc line (suc i) last n at = cc
record_line-last (e ∷ f ∷ es) pc line zero last n at = absurd (omega arith)
record_line-last (e ∷ f ∷ es) pc line (suc i) last n at =
    ground (arith, record_line-last (f ∷ es) pc line i last)
