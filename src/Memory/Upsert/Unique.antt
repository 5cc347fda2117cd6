-- ===== src/Memory/Upsert/Unique.antt =====
-- The keys of the rows stay unique, and when a flush succeeds.
use agentic_learning_platfor.Base.{
  ℕ, ◌≡◌, ◌↔◌, refl, sym, ap, subst, ◌∙◌, Bool, true, false, none, some, List, [], ◌∷◌, ◌++◌,
  append_assoc, append-nil, any, map, All, All-append, Bool-cases, Option-cases, inl, inr,
  in_either_branch,
}
use agentic_learning_platfor.Memory.Upsert.{
  Memory, Request, Session, has_key, same_key, find_first, inserted, insert_or_update, assign_first,
  touch_first, touch_all, insert_all, updated, flush, effective_weight, upsert_postgresql,
  upsert_session, upsert_memory, add_or_assign,
}
use agentic_learning_platfor.Memory.Upsert.Laws.{find-none-All}

abbrev pub IsOther : Memory → Memory → Type 0
IsOther a b = same_key a b ≡ false

abbrev pub IsUnique : List Memory → Type 0
IsUnique [] = Unit
IsUnique (row ∷ table) = All (IsOther row) table × IsUnique table

-- A row with nothing but its key.
abbrev bare : Memory → Memory
bare row = record row {
  memory_type = "";
  key = [];
  memory_key = [];
  value = [];
  weight = 0;
  confidence = none;
  source = "";
  is_active = none;
  source_event_id = 0;
  source_task_id = none;
  updated_at = 0;
}

All-bare :
    (a : Memory) (table : List Memory)
    → All (IsOther a) table ↔ All (IsOther (bare a)) (map bare table)
All-bare a [] = (λ h. tt, λ h. tt)
All-bare a (row ∷ table) =
    (λ h. (h.0, (All-bare a table).0 h.1), λ h. (h.0, (All-bare a table).1 h.1))

IsUnique-bare : (table : List Memory) → IsUnique table ↔ IsUnique (map bare table)
IsUnique-bare [] = (λ h. tt, λ h. tt)
IsUnique-bare (row ∷ table) = (
  λ h. ((All-bare row table).0 h.0, (IsUnique-bare table).0 h.1),
  λ h. ((All-bare row table).1 h.0, (IsUnique-bare table).1 h.1),
)

same_keys :
    (table others : List Memory)
    → map bare others ≡ map bare table
    → IsUnique table
    → IsUnique others
same_keys table others e u =
    (IsUnique-bare others).1 (subst IsUnique (sym e) ((IsUnique-bare table).0 u))

assign_first-bare :
    (weight : ℕ) (r : Request) (table added : List Memory)
    → map bare (assign_first weight r table ++ added) ≡ map bare (table ++ added)
unfolding assign_first
assign_first-bare weight r [] added = refl
assign_first-bare weight r (row ∷ table) added = elim (Bool-cases (has_key r row)) [
  | inl e ↦ rw e refl
  | inr e ↦ rw e (ap (λ l. bare row ∷ l) (assign_first-bare weight r table added))
]

touch_first-bare :
    (now : ℕ) (r : Request) (table : List Memory)
    → map bare (touch_first now r table) ≡ map bare table
unfolding touch_first
touch_first-bare now r [] = refl
touch_first-bare now r (row ∷ table) = elim (Bool-cases (has_key r row)) [
  | inl e ↦ rw e refl
  | inr e ↦ rw e (ap (λ l. bare row ∷ l) (touch_first-bare now r table))
]

touch_all-bare :
    (now : ℕ) (changed : List Request) (table : List Memory)
    → map bare (touch_all now changed table) ≡ map bare table
unfolding touch_all
touch_all-bare now [] table = refl
touch_all-bare now (r ∷ changed) table =
    touch_all-bare now changed (touch_first now r table) ∙ touch_first-bare now r table

IsUnique-snoc :
    (row : Memory) (table : List Memory)
    → All (λ old. same_key old row ≡ false) table
    → IsUnique table
    → IsUnique (table ++ row ∷ [])
IsUnique-snoc row [] h u = (tt, tt)
IsUnique-snoc row (old ∷ table) h u =
    (All-append (IsOther old) table (row ∷ []) u.0 (h.0, tt), IsUnique-snoc row table h.1 u.1)

module _ (now weight : ℕ) (r : Request) where
  All-insert_or_update :
      (row : Memory) (table : List Memory)
      → has_key r row ≡ false
      → All (IsOther row) table
      → All (IsOther row) (insert_or_update now weight r table)
  unfolding has_key insert_or_update
  All-insert_or_update row [] h all = (h, tt)
  All-insert_or_update row (next ∷ table) h (one, all) =
      in_either_branch (All (IsOther row)) (one, all) (one, All-insert_or_update row table h all)
        (has_key r next)

  pub insert_or_update-IsUnique :
      (table : List Memory) → IsUnique table → IsUnique (insert_or_update now weight r table)
  unfolding insert_or_update
  insert_or_update-IsUnique [] u = (tt, tt)
  insert_or_update-IsUnique (row ∷ table) (all, u) = elim (Bool-cases (has_key r row)) [
    | inl e ↦ rw e (all, u)
    | inr e ↦ rw e (All-insert_or_update row table e all, insert_or_update-IsUnique table u)
  ]

  -- A row that is added has a key of its own if the request's key is nowhere.
  IsUnique-inserted :
      (table : List Memory)
      → All (λ row. has_key r row ≡ false) table
      → IsUnique table
      → IsUnique (table ++ inserted now weight r ∷ [])
  unfolding has_key
  IsUnique-inserted table h u = IsUnique-snoc (inserted now weight r) table h u

-- The first of the rows that are added meets none of the table.
unmet :
    (row : Memory) (table added : List Memory)
    → IsUnique (table ++ row ∷ added)
    → any (λ old. same_key old row) table ≡ false
unmet row [] added u = refl
unmet row (old ∷ table) added u = rw (met old table u.0) (unmet row table added u.1)
  where
    met :
        (old : Memory) (table : List Memory)
        → All (IsOther old) (table ++ row ∷ added)
        → same_key old row ≡ false
    met old [] h = h.0
    met old (x ∷ table) h = met old table h.1

insert_all-some :
    (added table : List Memory)
    → IsUnique (table ++ added)
    → insert_all added table ≡ some (table ++ added)
unfolding insert_all
insert_all-some [] table u = ap some (sym (append-nil table))
insert_all-some (row ∷ added) table u = rw (unmet row table added u) (
    insert_all-some added (table ++ row ∷ [])
      (subst IsUnique (sym (append_assoc table (row ∷ []) added)) u)
    ∙ ap some (append_assoc table (row ∷ []) added))

-- Two requests for different rows.
abbrev pub IsApart : Request → Request → Type 0
IsApart r other = has_key other (inserted 0 0 r) ≡ false

abbrev pub Apart : List Request → Type 0
Apart [] = Unit
Apart (r ∷ requests) = All (IsApart r) requests × Apart requests

-- None of the rows that were added has the key of a request.
abbrev Free : List Request → List Memory → Type 0
Free requests added = All (λ r. All (λ row. has_key r row ≡ false) added) requests

-- What is known before the requests, on PostgreSQL and on other databases.
abbrev pub Ready : Bool → List Request → Session → Type 0
Ready true requests s = s.added ≡ []
Ready false requests s = Apart requests × Free requests s.added

abbrev pub IsReady : Bool → List Request → Session → Type 0
IsReady postgresql requests s = IsUnique (s.rows ++ s.added) × Ready postgresql requests s

Free-snoc :
    (now weight : ℕ) (r : Request) (requests : List Request) (added : List Memory)
    → All (IsApart r) requests
    → Free requests added
    → Free requests (added ++ inserted now weight r ∷ [])
unfolding has_key
Free-snoc now weight r [] added h f = tt
Free-snoc now weight r (other ∷ requests) added h f = (
  All-append (λ row. has_key other row ≡ false) added (inserted now weight r ∷ []) f.0 (h.0, tt),
  Free-snoc now weight r requests added h.1 f.1,
)

module _ (decay : Memory → ℕ) (now : ℕ) (r : Request) (requests : List Request) where
  add_or_assign-IsReady :
      (weight : ℕ) (s : Session)
      → IsReady false (r ∷ requests) s
      → IsReady false requests (add_or_assign decay now weight r s (find_first r s.rows))
  unfolding add_or_assign
  add_or_assign-IsReady weight s (u, (apart, free)) = elim (Option-cases (find_first r s.rows)) [
    | inl e ↦ rw e (
      subst IsUnique (append_assoc s.rows s.added (inserted now weight r ∷ [])) (
          IsUnique-inserted now weight r (s.rows ++ s.added)
            (All-append (λ row. has_key r row ≡ false) s.rows s.added
              (find-none-All now weight r s.rows e) free.0)
            u),
      (apart.1, Free-snoc now weight r requests s.added apart.0 free.1),
    )
    | inr (existing, e) ↦ rw e (
      same_keys (s.rows ++ s.added) _ (assign_first-bare weight r s.rows s.added) u,
      (apart.1, free.1),
    )
  ]

  pub upsert_memory-IsReady :
      (postgresql : Bool) (s : Session)
      → IsReady postgresql (r ∷ requests) s
      → IsReady postgresql requests (upsert_memory decay postgresql now r s)
  unfolding upsert_memory upsert_postgresql upsert_session
  upsert_memory-IsReady true s (u, empty) = (
    subst
        (λ added.
          IsUnique (insert_or_update now (effective_weight decay r s.rows) r s.rows ++ added))
        (sym empty)
        (subst IsUnique (sym (append-nil _)) (
          insert_or_update-IsUnique now (effective_weight decay r s.rows) r s.rows (
            subst IsUnique (append-nil s.rows)
              (subst (λ added. IsUnique (s.rows ++ added)) empty u)))),
    empty,
  )
  upsert_memory-IsReady false s ready =
      add_or_assign-IsReady (effective_weight decay r s.rows) s ready

-- A flush succeeds where the keys are unique, those of the added rows included, which they stay.
pub flush-some :
    (now : ℕ) (s : Session)
    → IsUnique (s.rows ++ s.added)
    → (table : List Memory) × (flush now s ≡ some table) × IsUnique table
unfolding flush
flush-some now s u = (
  touch_all now s.changed (s.rows ++ s.added),
  ap (updated now s.changed) (insert_all-some s.added s.rows u),
  same_keys (s.rows ++ s.added) _ (touch_all-bare now s.changed (s.rows ++ s.added)) u,
)
