-- ===== src/Chunker/Windows.antt =====
-- `_hard_split` (chunker.py): a text without a good place to cut is cut into windows that overlap.
use agentic_learning_platfor.Base.{
  ℕ, zero, suc, ◌+◌, ◌-◌, ◌*◌, ◌/◌, ◌≤◌, ◌<◌, min, max, Text, Unicode, ◌⊎◌, inl, inr, Bool, List,
  [], ◌∷◌, map, take, drop, length, All, arith, leb, tests, if◌then◌else◌, Bool-cases,
}
use native.Mathlib.Decide.{dec_lt}
use agentic_learning_platfor.TokenBudget.{between, count_cjk}
use agentic_learning_platfor.Chunker.Clean.{stripped_parts}

pub record Window : Type 0 where
  pub start : ℕ
  pub end : ℕ

-- The `while` loop, whose fuel is the number of characters behind `start`.
unfoldable pub windows : ℕ → ℕ → ℕ → ℕ → ℕ → List Window
windows zero len window overlap start = []
windows (suc fuel) len window overlap start =
    let end = min len (start + window) in
    let rest = windows fuel len window overlap (max (start + 1) (end - overlap)) in
    record { start = start; end = end } ∷ (if leb len end then [] else rest)

abbrev pub slice : Text → Window → Text
slice text w = take (w.end - w.start) (drop w.start text)

-- [\u3400-\u9fff]
abbrev pub is_wide : ℕ → Bool
is_wide c = between 0x3400 0x9fff c

-- A share of 0.30 and more of such characters makes a token a character, else it makes 3.5.
unfoldable pub scaled : Unicode → Text → ℕ → ℕ
unfolding count_cjk
scaled u text n =
    if leb (3 * max 1 (length text)) (10 * count_cjk u is_wide text) then n else n * 7 / 2

unfoldable pub window_of : Unicode → Text → ℕ → ℕ
window_of u text size = max 1 (scaled u text size)

unfoldable pub overlap_of : Unicode → Text → ℕ → ℕ → ℕ
unfolding window_of
overlap_of u text size overlap = min (scaled u text overlap) (window_of u text size - 1)

unfoldable pub text_windows : Unicode → Text → ℕ → ℕ → List Window
unfolding windows window_of overlap_of
text_windows u text size overlap =
    windows (length text) (length text) (window_of u text size) (overlap_of u text size overlap) 0

unfoldable pub hard_split : Unicode → Text → ℕ → ℕ → List Text
unfolding text_windows stripped_parts
hard_split u text size overlap =
    stripped_parts u (map (slice text) (text_windows u text size overlap))

-- Some window of the list holds the character at the place i.
abbrev pub Covered : ℕ → List Window → Type 0
Covered i [] = ⊥
Covered i (w ∷ ws) = ((w.start ≤ i) × (i < w.end)) ⊎ Covered i ws

windows-Covered :
    (fuel len window overlap start i : ℕ)
    → len ≤ start + fuel
    → overlap < window
    → start ≤ i
    → i < len
    → Covered i (windows fuel len window overlap start)
unfolding windows
windows-Covered zero len window overlap start i f o h k = absurd (omega arith)
windows-Covered (suc fuel) len window overlap start i f o h k =
    let end = min len (start + window) in
    let next = max (start + 1) (end - overlap) in
    let ih = λ (b : next ≤ i). windows-Covered fuel len window overlap next i (omega arith) o b k in
    elim (dec_lt i end) [
      | yes inside ↦ inl (h, inside)
      | no behind ↦ elim (Bool-cases (leb len end)) [
        | inl e ↦ absurd (omega (tests, e))
        | inr e ↦ rw e (inr (ih (omega arith)))
      ]
    ]

windows_bounds :
    (fuel len window overlap start : ℕ)
    → All (λ w. (w.end ≤ len) × (w.end ≤ w.start + window)) (windows fuel len window overlap start)
unfolding windows
windows_bounds zero len window overlap start = tt
windows_bounds (suc fuel) len window overlap start =
    let end = min len (start + window) in
    let next = max (start + 1) (end - overlap) in
    let ih = windows_bounds fuel len window overlap next in
    (
      (omega arith, omega arith),
      elim (Bool-cases (leb len end)) [ inl e ↦ rw e tt | inr e ↦ rw e ih ],
    )

-- Every character of the text lies in a window, so that the loop has come to the end of the text; and
-- no window is longer than it should be or goes past the end.
pub text_windows-Covered :
    (u : Unicode) (text : Text) (size overlap i : ℕ)
    → i < length text
    → Covered i (text_windows u text size overlap)
      × All
          (λ w. (w.end ≤ length text) × (w.end ≤ w.start + window_of u text size))
          (text_windows u text size overlap)
unfolding text_windows overlap_of
text_windows-Covered u text size overlap i h = (
  windows-Covered (length text) (length text) (window_of u text size) _ 0 i (omega arith)
      (omega arith) (omega arith) h,
  windows_bounds (length text) (length text) (window_of u text size) _ 0,
)
