-- ===== src/Chunker/Markdown/Rows.antt =====
-- The rows of a table that is cut.
use agentic_learning_platfor.Base.{
  ℕ, ◌≤◌, Text, ◌≡◌, refl, ap, ◌∙◌, ◌⊎◌, inl, inr, Bool, true, false, not, ◌||◌, List, [], ◌∷◌,
  ◌++◌, append_assoc, All, arith, Bool-cases,
}
use agentic_learning_platfor.Chunker.Pack.{is_nil}
use agentic_learning_platfor.Chunker.Markdown.{is_over, row_groups}

abbrev pub all_rows : List (List Text) → List Text
all_rows [] = []
all_rows (g ∷ gs) = g ++ all_rows gs

is_nil→nil : (rows : List Text) → is_nil rows ≡ true → rows ≡ []
is_nil→nil [] h = refl
is_nil→nil (row ∷ rows) h = cc

module _ (count : List Text → ℕ) (size : ℕ) (header : List Text) where
  all_rows-row_groups :
      (rows current : List Text) (pushed : Bool)
      → all_rows (row_groups count size header pushed current rows) ≡ current ++ rows
  unfolding row_groups
  all_rows-row_groups [] current pushed = elim (Bool-cases (not (is_nil current) || not pushed)) [
    | inl e ↦ rw e refl
    | inr e ↦ rw (e, is_nil→nil current (ground arith)) refl
  ]
  all_rows-row_groups (row ∷ rows) current pushed =
      elim (Bool-cases (is_over count size header current row)) [
        | inl e ↦ rw e (ap (λ l. current ++ l) (all_rows-row_groups rows (row ∷ []) true))
        | inr e ↦ rw e (
            all_rows-row_groups rows (current ++ row ∷ []) pushed
            ∙ append_assoc current (row ∷ []) rows)
      ]

  -- A piece has a row, and is within the size with its header unless that is its only row.
  abbrev pub RowSized : List Text → Type 0
  RowSized g = (is_nil g ≡ false) × ((count (header ++ g) ≤ size) ⊎ ((row : Text) × (g ≡ row ∷ [])))

  grown :
      (row : Text) (rows : List Text)
      → is_over count size header rows row ≡ false
      → RowSized (rows ++ row ∷ [])
  grown row [] e = (refl, inr (row, refl))
  grown row (r ∷ rs) e = (refl, inl (ground arith))

  row_groups-RowSized :
      (rows current : List Text) (pushed : Bool)
      → RowSized current
      → All RowSized (row_groups count size header pushed current rows)
  unfolding row_groups
  row_groups-RowSized [] current pushed h = rw h.0 (h, tt)
  row_groups-RowSized (row ∷ rows) current pushed h =
      elim (Bool-cases (is_over count size header current row)) [
        | inl e ↦ rw e (h, row_groups-RowSized rows (row ∷ []) true (refl, inr (row, refl)))
        | inr e ↦ rw e (row_groups-RowSized rows (current ++ row ∷ []) pushed (grown row current e))
      ]

  row_groups-first :
      (row : Text) (rows : List Text)
      → All RowSized (row_groups count size header false [] (row ∷ rows))
  unfolding row_groups
  row_groups-first row rows = elim (Bool-cases (is_over count size header [] row)) [
    | inl e ↦ absurd (ground arith)
    | inr e ↦ rw e (row_groups-RowSized rows (row ∷ []) false (refl, inr (row, refl)))
  ]

  -- A table that is cut keeps every data row once and in order. Each piece of a table with data rows
  -- has a row besides its header, and is within the size with the header that it repeats, or has a
  -- single row; a table without data rows is one piece.
  pub row_groups_complete :
      (rows : List Text)
      → (all_rows (row_groups count size header false [] rows) ≡ rows)
        × (is_nil rows ≡ false → All RowSized (row_groups count size header false [] rows))
        × (is_nil rows ≡ true → row_groups count size header false [] rows ≡ [] ∷ [])
  unfolding row_groups
  row_groups_complete [] = (all_rows-row_groups [] [] false, λ h. cc, λ h. refl)
  row_groups_complete (row ∷ rows) =
      (all_rows-row_groups (row ∷ rows) [] false, λ h. row_groups-first row rows, λ h. cc)
