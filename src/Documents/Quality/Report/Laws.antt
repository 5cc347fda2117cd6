-- ===== src/Documents/Quality/Report/Laws.antt =====
-- Every document gets a report, and what the report guarantees.
use agentic_learning_platfor.Base.{
  ℕ, ◌≤◌, String, Text, Unicode, sub_runs, ◌≡◌, ◌≢◌, refl, sym, subst, ap, ◌∙◌, inl, inr, Bool,
  true, false, not, Option, some, List, [], ◌∷◌, any, length, select, All, All-map, arith, str_eq,
  eq_iff, Bool-cases, if◌then◌else◌,
}
use agentic_learning_platfor.Documents.Quality.{
  Patterns, rounded, normalize_text, spec_of, holds, keywords_of, field_present,
  field_presence_score,
}
use agentic_learning_platfor.Documents.Specs.{DocumentTypeSpec, document_type_specs}
use agentic_learning_platfor.Documents.Quality.Report.{
  Issue, kind_of, missing_code, Measures, score_parts, or_praise, advice_of, Report, report_of,
  measures_of, reported, assess_document_quality,
}
use agentic_learning_platfor.Documents.Quality.Report.Issues.{
  has_code, Distinct, advice_of-Complete,
}
use agentic_learning_platfor.Documents.Quality.Report.Types.{kind_of-Known}

score_parts-le : (m : Measures) → score_parts m ≤ 24000
unfolding score_parts
score_parts-le m = omega arith

rounded-le : (parts : ℕ) → parts ≤ 24000 → rounded parts ≤ 100
unfolding rounded
rounded-le parts h = ground arith

-- None of the words that tell of a field is in the text.
abbrev pub IsAbsent : Unicode → Text → String → Type 0
IsAbsent u text field = All (λ word. holds u text word ≡ false) (keywords_of u field)

-- Whether the field has its issue among these.
abbrev pub IsReported : List Issue → String → Type 0
IsReported issues field = has_code (missing_code field) issues ≡ true

-- What a report on a text guarantees.
pub record IsReport (u : Unicode) (text : Text) (kind : String) (r : Report) : Type 0 where
  pub spec : DocumentTypeSpec
  pub is_spec : spec_of document_type_specs kind ≡ some spec
  pub same_kind : r.kind ≡ spec.code
  pub score_bounded : r.quality_score ≤ 100
  pub codes_distinct : Distinct r.issues
  pub missing_reported :
      All (λ field. IsAbsent u text field → IsReported r.issues field) spec.required_fields
  pub has_suggestion : r.suggestions ≢ []

or_praise-some : (suggestions : List Text) → or_praise suggestions ≢ []
or_praise-some [] e = ground arith
or_praise-some (s ∷ suggestions) e = ground arith

select-none :
    (u : Unicode) (text : Text) (words : List String)
    → All (λ word. holds u text word ≡ false) words
    → length (select (holds u text) words) ≡ 0
select-none u text [] h = refl
select-none u text (word ∷ words) h = rw h.0 (select-none u text words h.1)

field_present-absent :
    (u : Unicode) (text : Text) (field : String)
    → IsAbsent u text field
    → field_present u text field ≡ false
unfolding field_present field_presence_score
field_present-absent u text field h = rw (select-none u text (keywords_of u field) h) refl

-- A field that is not present is not among the present ones.
not_selected :
    (keep : String → Bool) (field : String) (fields : List String)
    → keep field ≡ false
    → any (str_eq field) (select keep fields) ≡ false
not_selected keep field [] h = refl
not_selected keep field (x ∷ fields) h = elim (Bool-cases (keep x)) [
  | inr e ↦ rw e (not_selected keep field fields h)
  | inl e ↦ elim (Bool-cases (str_eq field x)) [
    | inl same ↦ absurd (ground (arith, sym e ∙ ap keep (sym ((eq_iff field x).0 same)) ∙ h))
    | inr different ↦ rw (e, different) (not_selected keep field fields h)
  ]
]

-- What holds of all the kept items holds of each item that is kept.
All-select :
    (P : String → Type 0) (keep : String → Bool) (fields : List String)
    → All P (select keep fields)
    → All (λ field. keep field ≡ true → P field) fields
All-select P keep [] h = tt
All-select P keep (x ∷ fields) h = elim (Bool-cases (keep x)) [
  | inl e ↦
      let k = subst (λ b. All P (if b then x ∷ select keep fields else select keep fields)) e h in
      (λ t. k.0, All-select P keep fields k.1)
  | inr e ↦
      let k = subst (λ b. All P (if b then x ∷ select keep fields else select keep fields)) e h in
      (λ t. absurd (ground arith), All-select P keep fields k)
]

IsAbsent-IsReported :
    (u : Unicode) (text : Text) (issues : List Issue) (required fields : List String)
    → All
        (λ field.
          not (any (str_eq field) (select (field_present u text) required)) ≡ true
          → IsReported issues field)
        fields
    → All (λ field. IsAbsent u text field → IsReported issues field) fields
IsAbsent-IsReported u text issues required fields h =
    All-map _ (λ field. IsAbsent u text field → IsReported issues field)
      (λ field f absent. f (
        ap not (
          not_selected (field_present u text) field required
            (field_present-absent u text field absent))))
      fields h

-- For every text, type, title and file name there is a report, of the type of the table that is named
-- or inferred. Its score is at most 100, no two issues have the same code, and there is a suggestion.
-- Every field that the type requires has its issue if none of the words that tell of it is in the
-- normalized text.
pub assess_document_quality-IsReport :
    (u : Unicode) (p : Patterns) (raw : Text) (document_type title file_name : Option Text)
    → (r : Report) × (assess_document_quality u p raw document_type title file_name ≡ some r)
      × IsReport u
          (normalize_text u raw)
          (kind_of u p (normalize_text u raw) document_type file_name)
          r
unfolding assess_document_quality report_of measures_of
assess_document_quality-IsReport u p raw document_type title file_name =
    let text = normalize_text u raw in
    let k = kind_of-Known u p text document_type file_name in
    let m = measures_of u p k.spec text (sub_runs u.is_space 32 false text) in
    let required = k.spec.required_fields in
    (
      report_of u p k.spec text title file_name,
      ap (λ spec. reported u p spec text title file_name) k.is_spec,
      record {
        spec = k.spec;
        is_spec = k.is_spec;
        same_kind = refl;
        score_bounded = rounded-le (score_parts m) (score_parts-le m);
        codes_distinct = (advice_of-Complete m).0;
        missing_reported =
            IsAbsent-IsReported u text (advice_of m).issues required required
              (All-select (IsReported (advice_of m).issues) _ required (advice_of-Complete m).1);
        has_suggestion = or_praise-some (advice_of m).suggestions;
      },
    )
