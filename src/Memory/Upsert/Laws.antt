-- ===== src/Memory/Upsert/Laws.antt =====
-- The two ways to merge a memory agree.
use agentic_learning_platfor.Base.{
  ℕ, String, Option, ◌≡◌, refl, sym, ◌∙◌, true, false, none, some, List, [], ◌∷◌, All, arith,
  Bool-cases, inl, inr,
}
use agentic_learning_platfor.Memory.Upsert.{
  Memory, Request, opened, has_key, find_first, flush, upsert_memory,
}

-- A row without the two columns that only PostgreSQL's statement resets.
abbrev pub shared_columns : Memory → Memory
shared_columns row = record row { source = ""; is_active = none }

module _ (r : Request) (row : Memory) (table : List Memory) where
  find-here : has_key r row ≡ true → find_first r (row ∷ table) ≡ some row
  unfolding find_first
  find-here e = rw e refl

  find-skip : has_key r row ≡ false → find_first r (row ∷ table) ≡ find_first r table
  unfolding find_first
  find-skip e = rw e refl

some_not_none : {row : Memory} → some row ≡ none → ⊥
some_not_none e = ground arith

-- The two columns that only PostgreSQL's statement resets.
abbrev pub kept_columns : Memory → String × Option ℕ
kept_columns row = (row.source, row.is_active)

module _ (now weight : ℕ) (r : Request) where
  pub find-none-All :
      (table : List Memory) → find_first r table ≡ none → All (λ row. has_key r row ≡ false) table
  unfolding find_first
  find-none-All [] h = tt
  find-none-All (row ∷ table) h = elim (Bool-cases (has_key r row)) [
    | inl e ↦ absurd (some_not_none (sym (find-here r row table e) ∙ h))
    | inr e ↦ (e, find-none-All table (sym (find-skip r row table e) ∙ h))
  ]

module _ (decay : Memory → ℕ) (now : ℕ) (r : Request) (table : List Memory) where
  abbrev pub by_statement : Option (List Memory)
  by_statement = flush now (upsert_memory decay true now r (opened table))

  abbrev pub by_session : Option (List Memory)
  by_session = flush now (upsert_memory decay false now r (opened table))
