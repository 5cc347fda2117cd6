-- ===== src/Documents/Quality/Report/Types.antt =====
-- The type of a document is always one of the table's.
use agentic_learning_platfor.Base.{
  ℕ, String, Text, Unicode, ◌≡◌, ◌⊎◌, inl, inr, refl, Option, some, List, [], ◌∷◌, All, arith, leb,
  str_eq, eq_iff, Bool-cases, in_either_branch,
}
use agentic_learning_platfor.Documents.Specs.{DocumentTypeSpec, document_type_specs}
use agentic_learning_platfor.Documents.Quality.{
  Patterns, or_blank, spec_of, known_code, normalize_document_type, infer_document_type, best_type,
  best_of, chosen, haystack_of, plain_value, type_score,
}
use agentic_learning_platfor.Documents.Quality.Report.{kind_of}

-- The code names one of the types.
pub record Known (specs : List DocumentTypeSpec) (code : String) : Type 0 where
  pub spec : DocumentTypeSpec
  pub is_spec : spec_of specs code ≡ some spec

known_code-Known :
    (all specs : List DocumentTypeSpec) (value : Text)
    → All (λ (spec : DocumentTypeSpec). Known all spec.code) specs
    → (known_code specs value ≡ "unknown") ⊎ Known all (known_code specs value)
unfolding known_code
known_code-Known all [] value h = inl refl
known_code-Known all (spec ∷ specs) value (one, others) =
    in_either_branch (λ code. (code ≡ "unknown") ⊎ Known all code) (inr one)
      (known_code-Known all specs value others) _

best_type-Known :
    (u : Unicode) (haystack text : Text) (all specs : List DocumentTypeSpec) (best : String × ℕ)
    → Known all best.0
    → All (λ (spec : DocumentTypeSpec). Known all spec.code) specs
    → Known all (best_type u haystack text best specs).0
unfolding best_type
best_type-Known u haystack text all [] best b h = b
best_type-Known u haystack text all (spec ∷ specs) best b (one, others) =
    best_type-Known u haystack text all specs _
      (in_either_branch (λ (c : String × ℕ). Known all c.0) one b _) others

specs-Known :
    All (λ (spec : DocumentTypeSpec). Known document_type_specs spec.code) document_type_specs
specs-Known = (
  at _ refl,
  (
    at _ refl,
    (
      at _ refl,
      (at _ refl, (at _ refl, (at _ refl, (at _ refl, (at _ refl, (at _ refl, (at _ refl, tt))))))),
    ),
  ),
)
  where
    at :
        {code : String} (spec : DocumentTypeSpec)
        → spec_of document_type_specs code ≡ some spec
        → Known document_type_specs code
    at spec e = record { spec = spec; is_spec = e }

module _ (u : Unicode) where
  normalize-Known :
      (value : Text)
      → (normalize_document_type u value ≡ "unknown")
        ⊎ Known document_type_specs (normalize_document_type u value)
  unfolding normalize_document_type
  normalize-Known [] = inl refl
  normalize-Known (c ∷ value) =
      known_code-Known document_type_specs document_type_specs (plain_value u (c ∷ value))
        specs-Known

  learning_note-Known : Known document_type_specs "learning_note"
  learning_note-Known = record { spec = _; is_spec = refl }

  best_of-Known :
      (haystack text : Text) (specs : List DocumentTypeSpec)
      → All (λ (spec : DocumentTypeSpec). Known document_type_specs spec.code) specs
      → Known document_type_specs (best_of u haystack text specs).0
  unfolding best_of
  best_of-Known haystack text [] h = learning_note-Known
  best_of-Known haystack text (spec ∷ specs) (one, others) =
      best_type-Known u haystack text document_type_specs specs
        (spec.code, type_score u haystack text spec) one others

  chosen-Known :
      (best : String × ℕ)
      → Known document_type_specs best.0
      → Known document_type_specs (chosen u best)
  unfolding chosen
  chosen-Known best b =
      in_either_branch (Known document_type_specs) b learning_note-Known (leb 4 best.1)

  infer-Known :
      (text : Text) (file_name : Option Text)
      → Known document_type_specs (infer_document_type u text file_name)
  unfolding infer_document_type
  infer-Known text file_name =
      chosen-Known _
        (best_of-Known (haystack_of u text file_name) text document_type_specs specs-Known)

  pub kind_of-Known :
      (p : Patterns) (text : Text) (document_type file_name : Option Text)
      → Known document_type_specs (kind_of u p text document_type file_name)
  unfolding kind_of
  kind_of-Known p text document_type file_name =
      let named = normalize_document_type u (or_blank document_type) in
      elim (Bool-cases (str_eq named "unknown")) [
        | inl e ↦ rw e (infer-Known text file_name)
        | inr e ↦ rw e (elim (normalize-Known (or_blank document_type)) [
          | inl unknown ↦ absurd (ground (arith, eq_iff named "unknown"))
          | inr known ↦ known
        ])
      ]
