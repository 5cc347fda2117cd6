-- ===== src/Documents/Quality/Report.antt =====
-- The report on a document (services/document_quality.py, `assess_document_quality`).
pub mod Issues
pub mod Types
pub mod Laws
use agentic_learning_platfor.Base.{
  ℕ, zero, suc, ◌+◌, ◌*◌, ◌/◌, ◌≤◌, min, max, String, Text, Unicode, codes, strip, joined, sub_runs,
  Bool, true, false, not, ◌&&◌, ◌||◌, Option, none, some, List, [], ◌∷◌, ◌++◌, map, any, select,
  length, ltb, leb, ◌==◌, if◌then◌else◌, same_text, str_eq,
}
use agentic_learning_platfor.Documents.Specs.{DocumentTypeSpec, document_type_specs}
use agentic_learning_platfor.Documents.Keywords.{technical_terms, empty_phrases}
use agentic_learning_platfor.Documents.Quality.{
  Patterns, is_blank, spec_of, or_blank, occurrences, rounded, quality_level,
  normalize_document_type, field_present, matched_terms, infer_document_type, normalize_text,
  guess_title,
}

pub record Issue : Type 0 where
  pub code : Text
  pub severity : String
  pub message : Text

abbrev pub issue : Text → String → String → Issue
issue code severity message = record { code = code; severity = severity; message = codes message }

unfoldable pub add_issue : List Issue → Issue → List Issue
add_issue issues new =
    if any (λ (old : Issue). same_text old.code new.code) issues then issues else issues ++ new ∷ []

abbrev pub missing_code : String → Text
missing_code field = codes "missing_required_" ++ codes field

abbrev pub missing_issue : String → Issue
missing_issue field = record {
  code = missing_code field;
  severity = "high";
  message = codes "缺少必要字段：" ++ codes field ++ codes "。";
}

unfoldable pub add_missing : List String → List Issue → List Issue
unfolding add_issue
add_missing [] issues = issues
add_missing (field ∷ fields) issues = add_missing fields (add_issue issues (missing_issue field))

-- The issues and the suggestions.
pub record Advice : Type 0 where
  pub issues : List Issue
  pub suggestions : List Text

unfoldable pub advise : Bool → Issue → String → Advice → Advice
unfolding add_issue
advise wanted new suggestion a = record {
  issues = if wanted then add_issue a.issues new else a.issues;
  suggestions = if wanted then a.suggestions ++ codes suggestion ∷ [] else a.suggestions;
}

abbrev pub is_one_of : List String → String → Bool
is_one_of kinds kind = any (str_eq kind) kinds

-- What the rules look at.
pub record Measures : Type 0 where
  pub kind : String
  pub char_count : ℕ
  pub heading_count : ℕ
  pub paragraph_count : ℕ
  pub metrics_count : ℕ
  pub technical_terms : List String
  pub empty_phrase_count : ℕ
  pub required : ℕ
  pub present_required : List String
  pub missing_required : List String
  pub has_contribution : Bool
  pub has_questions : Bool
  pub has_tradeoffs : Bool
  pub has_result : Bool

-- The score in parts of 240.
unfoldable pub score_parts : Measures → ℕ
score_parts m = min 24000 (
    6000 * length m.present_required / max 1 m.required
    + min 3600 (3 * m.char_count)
    + min 3600 (720 * m.heading_count + 288 * m.paragraph_count)
    + min 3600 (600 * length m.technical_terms)
    + min 3600 (1200 * m.metrics_count)
    + (if m.has_contribution
          || is_one_of ("jd" ∷ "company_question_bank" ∷ "interview_notes" ∷ "learning_note" ∷ [])
              m.kind
        then 2400
        else 720)
    + (if m.has_questions || m.has_tradeoffs || leb 4 m.paragraph_count then 1200 else 480))

abbrev pub too_short : Measures → Advice → Advice
too_short m a =
    advise (ltb m.char_count 300)
      (issue (codes "too_little_content") "high" "资料内容过少，RAG 检索和面试追问的稳定性会比较弱。")
      "补充背景、过程、结论和可复用细节，让资料至少形成 3-5 个完整段落。"
      (advise (leb 300 m.char_count && ltb m.char_count 800)
        (issue (codes "thin_content") "medium" "资料信息量偏少，可能只能回答非常局部的问题。") "继续补充上下文、案例、关键决策或复盘结论。" a)

abbrev pub some_missing : List String → Bool
some_missing [] = false
some_missing (field ∷ fields) = true

unfoldable pub missing_fields : Measures → Advice → Advice
unfolding add_missing
missing_fields m a = record {
  issues = add_missing m.missing_required a.issues;
  suggestions =
      if some_missing m.missing_required
      then a.suggestions ++ codes "按资料模板补齐必要字段后再用于核心推荐或面试模拟。" ∷ []
      else a.suggestions;
}

abbrev pub thin_evidence : Measures → Advice → Advice
thin_evidence m a =
    advise
      (is_one_of ("project_review" ∷ "technical_design" ∷ "code_project_readme" ∷ []) m.kind
        && ltb (length m.technical_terms) 3)
      (issue (codes "lack_technical_details") "high" "技术细节不足，难以支撑面试深挖。") "补充架构、核心模块、关键实现、技术难点和方案取舍。"
      (advise
        (is_one_of ("resume" ∷ "project_review" ∷ "technical_design" ∷ []) m.kind
          && m.metrics_count == 0)
        (issue (codes "missing_metrics") "high" "缺少量化指标，例如 QPS、耗时、转化率、成本下降或准确率。")
        "补充项目上线效果、性能变化、业务收益或规模数据。" a)

abbrev pub weak_project : Measures → Advice → Advice
weak_project m a =
    advise (leb 4 m.empty_phrase_count)
      (issue (codes "too_many_empty_phrases") "medium" "空泛表述较多，可信度和可追问性偏弱。")
      "把“参与/熟悉/优化”等表达改成具体动作、对象和结果。"
      (advise (str_eq m.kind "project_review" && not m.has_result)
        (issue (codes "missing_project_result") "high" "项目复盘缺少结果或收益描述。") "补充项目最终结果、上线状态、业务收益和失败反思。"
        (advise (is_one_of ("resume" ∷ "project_review" ∷ []) m.kind && not m.has_contribution)
          (issue (codes "weak_personal_contribution") "medium" "个人贡献描述不够明确。")
          "说明你负责的模块、做出的决策、具体实现和协作边界。" a))

abbrev pub or_praise : List Text → List Text
or_praise [] = codes "资料质量较好，可以直接用于 RAG、岗位匹配和面试模拟。" ∷ []
or_praise (suggestion ∷ suggestions) = suggestion ∷ suggestions

unfoldable pub advice_of : Measures → Advice
unfolding advise missing_fields
advice_of m =
    weak_project m
      (thin_evidence m (missing_fields m (too_short m (record { issues = []; suggestions = [] }))))

pub record Report : Type 0 where
  pub kind : String
  pub type_label : String
  pub title : Text
  pub quality_score : ℕ
  pub level : String
  pub measures : Measures
  pub present_recommended : List String
  pub issues : List Issue
  pub suggestions : List Text

abbrev pub count_all : Text → List String → ℕ
count_all text [] = 0
count_all text (phrase ∷ phrases) = occurrences (codes phrase) 0 text + count_all text phrases

module _ (u : Unicode) (p : Patterns) where
  unfoldable pub measures_of : DocumentTypeSpec → Text → Text → Measures
  unfolding occurrences field_present matched_terms
  measures_of spec text scan_text = record {
    kind = spec.code;
    char_count = length scan_text;
    heading_count = p.headings text;
    paragraph_count =
        length (select (λ part. not (is_blank (strip u.is_space part))) (p.parts text));
    metrics_count = p.metrics scan_text;
    technical_terms = matched_terms u scan_text technical_terms;
    empty_phrase_count = count_all scan_text empty_phrases;
    required = length spec.required_fields;
    present_required = select (field_present u text) spec.required_fields;
    missing_required =
        select
          (λ field. not (any (str_eq field) (select (field_present u text) spec.required_fields)))
          spec.required_fields;
    has_contribution = field_present u text "personal_contribution";
    has_questions = field_present u text "questions";
    has_tradeoffs = field_present u text "tradeoffs";
    has_result = field_present u text "result";
  }

  unfoldable pub report_of : DocumentTypeSpec → Text → Option Text → Option Text → Report
  unfolding measures_of score_parts rounded quality_level advice_of guess_title
  report_of spec text title file_name =
      let m = measures_of spec text (sub_runs u.is_space 32 false text) in
      let score = rounded (score_parts m) in
      record {
        kind = spec.code;
        type_label = spec.label;
        title =
            if is_blank (or_blank title) then guess_title u p text file_name else or_blank title;
        quality_score = score;
        level = quality_level score;
        measures = m;
        present_recommended = select (field_present u text) spec.recommended_fields;
        issues = (advice_of m).issues;
        suggestions = or_praise (advice_of m).suggestions;
      }

  unfoldable pub kind_of : Text → Option Text → Option Text → String
  unfolding normalize_document_type infer_document_type
  kind_of text document_type file_name =
      let named = normalize_document_type u (or_blank document_type) in
      if str_eq named "unknown" then infer_document_type u text file_name else named

  abbrev pub reported : Option DocumentTypeSpec → Text → Option Text → Option Text → Option Report
  reported none text title file_name = none
  reported (some spec) text title file_name = some (report_of spec text title file_name)

  -- None is the KeyError of a type that is not there.
  unfoldable pub assess_document_quality :
      Text → Option Text → Option Text → Option Text → Option Report
  unfolding kind_of report_of normalize_text
  assess_document_quality raw document_type title file_name =
      let text = normalize_text u raw in
      reported (spec_of document_type_specs (kind_of text document_type file_name)) text title
        file_name
