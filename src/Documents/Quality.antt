-- ===== src/Documents/Quality.antt =====
-- The checks of a document's quality (services/document_quality.py). The matches of the regular
-- expressions are a parameter. The score is counted in parts of 240, in which all its terms are whole
-- numbers; the source counts in floats.
pub mod Report
use agentic_learning_platfor.Base.{
  ℕ, zero, suc, ◌+◌, ◌-◌, ◌*◌, ◌/◌, ◌%◌, ◌≤◌, min, max, String, Text, Unicode, codes, contains,
  starts_with, same_text, strip, joined, sub_runs, Bool, true, false, not, ◌&&◌, ◌||◌, Option, none,
  some, List, [], ◌∷◌, ◌++◌, map, any, select, length, take, ltb, leb, ◌==◌, if◌then◌else◌, Assoc,
  get, str_eq,
}
use agentic_learning_platfor.Chunker.Clean.{split_newlines}
use agentic_learning_platfor.Documents.Specs.{DocumentTypeSpec, document_type_specs}
use agentic_learning_platfor.Documents.Keywords.{field_keywords, technical_terms, empty_phrases}

-- What the program takes from `re`: the number of headings, the parts between blank lines, the number
-- of matches of METRIC_PATTERN, and the first heading's title.
pub record Patterns : Type 0 where
  pub headings : Text → ℕ
  pub parts : Text → List Text
  pub metrics : Text → ℕ
  pub first_heading : Text → Option Text

abbrev pub is_blank : Text → Bool
is_blank [] = true
is_blank (c ∷ text) = false

-- value.replace("-", "_"), and text.replace("\r\n", "\n").replace("\r", "\n").
abbrev pub underscored : Text → Text
underscored [] = []
underscored (c ∷ text) = (if c == 45 then 95 else c) ∷ underscored text

abbrev pub without_returns : Text → Text
without_returns [] = []
without_returns (c ∷ []) = (if c == 13 then 10 else c) ∷ []
without_returns (c ∷ d ∷ text) =
    let rest = without_returns (d ∷ text) in
    if c == 13 then (if d == 10 then rest else 10 ∷ rest) else c ∷ rest

abbrev pub aliases : List (Text × String)
aliases =
    (codes "八股笔记", "interview_notes")
    ∷ (codes "公司题库", "company_question_bank")
    ∷ (codes "代码项目说明", "code_project_readme")
    ∷ (codes "简历", "resume")
    ∷ (codes "技术方案", "technical_design")
    ∷ (codes "架构设计", "technical_design")
    ∷ (codes "面试记录", "interview_record")
    ∷ (codes "项目复盘", "project_review")
    ∷ (codes "学习笔记", "learning_note")
    ∷ (codes "offer", "offer_result")
    ∷ []

abbrev pub unaliased : List (Text × String) → Text → Text
unaliased [] value = value
unaliased ((alias, code) ∷ others) value =
    let rest = unaliased others value in if same_text alias value then codes code else rest

-- The code of a type in the list, or "unknown".
unfoldable pub known_code : List DocumentTypeSpec → Text → String
known_code [] value = "unknown"
known_code (spec ∷ specs) value =
    let rest = known_code specs value in
    if same_text (codes spec.code) value then spec.code else rest

-- DOCUMENT_TYPE_SPECS[code]
abbrev pub spec_of : List DocumentTypeSpec → String → Option DocumentTypeSpec
spec_of [] code = none
spec_of (spec ∷ specs) code =
    let rest = spec_of specs code in if str_eq spec.code code then some spec else rest

abbrev pub or_blank : Option Text → Text
or_blank none = []
or_blank (some text) = text

-- text.count(phrase), where `skip` characters belong to the match before.
unfoldable pub occurrences : Text → ℕ → Text → ℕ
occurrences phrase skip [] = 0
occurrences phrase zero (c ∷ text) =
    let behind = occurrences phrase (length phrase - 1) text in
    let next = occurrences phrase 0 text in
    if starts_with (c ∷ text) phrase then suc behind else next
occurrences phrase (suc skip) (c ∷ text) = occurrences phrase skip text

-- round(score / 240), to the even number in the middle.
unfoldable pub rounded : ℕ → ℕ
rounded parts =
    let whole = parts / 240 in
    let rest = parts % 240 in
    if ltb rest 120 then whole else if ltb 120 rest then whole + 1 else whole + whole % 2

unfoldable pub quality_level : ℕ → String
quality_level score =
    if leb 90 score
    then "excellent"
    else if leb 75 score
    then "usable"
    else if leb 60 score
    then "needs_improvement"
    else "low_quality"

module _ (u : Unicode) where
  -- value.strip().lower().replace("-", "_"), and its alias.
  abbrev pub plain_value : Text → Text
  plain_value value = unaliased aliases (underscored (u.lower (strip u.is_space value)))

  unfoldable pub normalize_document_type : Text → String
  unfolding strip known_code
  normalize_document_type [] = "unknown"
  normalize_document_type (c ∷ value) = known_code document_type_specs (plain_value (c ∷ value))

  -- `keyword and keyword.lower() in text.lower()`
  abbrev pub holds : Text → String → Bool
  holds text keyword =
      not (is_blank (codes keyword)) && contains (u.lower text) (u.lower (codes keyword))

  abbrev pub keywords_of : String → List String
  keywords_of field = elim (get field field_keywords) [ none ↦ field ∷ [] | some words ↦ words ]

  unfoldable pub field_presence_score : Text → String → ℕ
  unfolding contains get
  field_presence_score text field = length (select (holds text) (keywords_of field))

  unfoldable pub field_present : Text → String → Bool
  unfolding field_presence_score
  field_present text field = ltb 0 (field_presence_score text field)

  unfoldable pub matched_terms : Text → List String → List String
  unfolding contains
  matched_terms text terms =
      take 12 (select (λ term. contains (u.lower text) (u.lower (codes term))) terms)

  abbrev pub fields_score : Text → List String → ℕ
  fields_score text [] = 0
  fields_score text (field ∷ fields) = field_presence_score text field + fields_score text fields

  unfoldable pub type_score : Text → Text → DocumentTypeSpec → ℕ
  unfolding field_presence_score contains
  type_score haystack text spec =
      (if not (is_blank (u.lower (codes spec.label)))
          && contains haystack (u.lower (codes spec.label))
        then 5
        else 0)
      + fields_score text (spec.required_fields ++ spec.recommended_fields)

  -- max(scores.items(), key=…): the first of the types with the highest score.
  unfoldable pub best_type : Text → Text → String × ℕ → List DocumentTypeSpec → String × ℕ
  unfolding type_score
  best_type haystack text best [] = best
  best_type haystack text best (spec ∷ specs) =
      best_type haystack text
        (if ltb best.1 (type_score haystack text spec)
          then (spec.code, type_score haystack text spec)
          else best)
        specs

  unfoldable pub best_of : Text → Text → List DocumentTypeSpec → String × ℕ
  unfolding best_type
  best_of haystack text [] = ("learning_note", 0)
  best_of haystack text (spec ∷ specs) =
      best_type haystack text (spec.code, type_score haystack text spec) specs

  unfoldable pub chosen : String × ℕ → String
  chosen best = if leb 4 best.1 then best.0 else "learning_note"

  abbrev pub haystack_of : Text → Option Text → Text
  haystack_of text file_name = u.lower (or_blank file_name ++ 10 ∷ take 4000 text)

  unfoldable pub infer_document_type : Text → Option Text → String
  unfolding best_of chosen
  infer_document_type text file_name =
      chosen (best_of (haystack_of text file_name) text document_type_specs)

  -- The tab, the form feed, the vertical tab and the space.
  abbrev pub is_gap : ℕ → Bool
  is_gap c = c == 9 || c == 12 || c == 11 || c == 32

  unfoldable pub normalize_text : Text → Text
  unfolding sub_runs strip joined split_newlines
  normalize_text text = strip u.is_space (
      joined (10 ∷ []) (
        map (λ line. strip u.is_space (sub_runs is_gap 32 false line))
          (split_newlines (without_returns text))))

  unfoldable pub guess_title : Patterns → Text → Option Text → Text
  unfolding strip
  guess_title p text file_name = elim (p.first_heading text) [
    | some title ↦ take 120 (strip u.is_space title)
    | none ↦ if is_blank (or_blank file_name) then codes "Untitled document" else or_blank file_name
  ]
