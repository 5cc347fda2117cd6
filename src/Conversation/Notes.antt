-- ===== src/Conversation/Notes.antt =====
-- The notes that are taken from messages (services/conversation_context.py,
-- its data and the helpers for one item). The matches of its regular expressions are a
-- parameter. `sections` is an association list, the dictionaries of the last values have text keys.
pub mod Extract
pub mod Render
pub mod Laws
use agentic_learning_platfor.Base.{
  ℕ, ◌+◌, ◌-◌, ◌≤◌, String, Text, Unicode, codes, contains, starts_with, same_text, strip, joined,
  squeezed, Bool, true, false, not, ◌&&◌, ◌||◌, Option, none, some, List, [], ◌∷◌, ◌++◌, map, any,
  select, reverse, length, drop, ltb, leb, ◌==◌, if◌then◌else◌, Assoc, get, put, str_eq,
}
use agentic_learning_platfor.TokenBudget.{Tokenizer, count_tokens, truncate_tokens}

pub record Message : Type 0 where
  pub id : ℕ
  pub role : String
  pub content : Text

-- PATH_RE.findall, ENV_RE.findall, PARAM_RE.findall and METRIC_RE.findall, and the key of a match of
-- ENV_RE.
pub record Patterns : Type 0 where
  pub paths : Text → List Text
  pub configs : Text → List Text
  pub params : Text → List Text
  pub metrics : Text → List (Text × Text)
  pub config_key : Text → Text

abbrev pub Sections : Type 0
Sections = Assoc (List Text)

-- SUMMARY_SECTION_BUDGETS and SUMMARY_SECTION_TITLES, in the order of the rendering.
pub record Section : Type 0 where
  pub key : String
  pub title : Text
  pub budget : ℕ

abbrev section : String → String → ℕ → Section
section key title budget = record { key = key; title = codes title; budget = budget }

abbrev pub ordered_sections : List Section
ordered_sections =
    section "project_context" "项目上下文" 160
    ∷ section "paths" "关键路径" 160
    ∷ section "constraints" "约束/禁忌" 240
    ∷ section "decisions" "已确认决策" 260
    ∷ section "config_params" "参数配置" 260
    ∷ section "run_results" "运行结果" 200
    ∷ section "todos" "待办事项" 160
    ∷ section "raw_fallback" "保底原文" 120
    ∷ []

abbrev pub project_keywords : List Text
project_keywords =
    codes "RAG"
    ∷ codes "RAGAS"
    ∷ codes "铜川"
    ∷ codes "可研"
    ∷ codes "参考文献"
    ∷ codes "Docker"
    ∷ codes "VLM"
    ∷ codes "OCR"
    ∷ codes "记忆"
    ∷ codes "query rewrite"
    ∷ codes "rerank"
    ∷ codes "BM25"
    ∷ codes "Dense Retrieval"
    ∷ codes "向量"
    ∷ codes "检索"
    ∷ []

abbrev pub short_commands : List Text
short_commands = map codes ("执行" ∷ "继续" ∷ "好" ∷ "好的" ∷ "可以" ∷ "行" ∷ "嗯" ∷ "不要" ∷ "修改" ∷ [])

abbrev pub forbidding_words : List Text
forbidding_words = map codes ("不可以" ∷ "不能" ∷ "不要" ∷ "禁止" ∷ "别" ∷ "不准" ∷ [])

abbrev pub deciding_words : List Text
deciding_words = map codes ("改成" ∷ "设置为" ∷ "就" ∷ "按" ∷ "用" ∷ "换成" ∷ "打开" ∷ "关闭" ∷ [])

abbrev pub asking_words : List Text
asking_words = map codes ("帮我" ∷ "你先" ∷ "现在" ∷ "继续" ∷ "先" ∷ [])

-- items[-n:]
abbrev pub last {ℓ} : {A : Type ℓ} → ℕ → List A → List A
last n items = drop (length items - n) items

abbrev pub is_blank : Text → Bool
is_blank [] = true
is_blank (c ∷ text) = false

-- labels.get(role, role)
abbrev pub role_label : String → Text
role_label role =
    if str_eq role "user"
    then codes "用户"
    else if str_eq role "assistant"
    then codes "助手"
    else if str_eq role "system"
    then codes "系统"
    else codes role

-- d[key] = value, for a dictionary with text keys.
abbrev pub put_text : Text → Text → List (Text × Text) → List (Text × Text)
put_text key value [] = (key, value) ∷ []
put_text key value ((k, v) ∷ d) =
    let rest = put_text key value d in if same_text k key then (k, value) ∷ d else (k, v) ∷ rest

abbrev pub section_of : String → Sections → List Text
section_of key sections = elim (get key sections) [ none ↦ [] | some items ↦ items ]

module _ (t : Tokenizer) where
  abbrev u : Unicode
  u = t.unicode

  -- item = " ".join((item or "").split()).strip(" -")
  abbrev pub tidy : Text → Text
  tidy item = strip (λ c. c == 32 || c == 45) (squeezed u.is_space item)

  abbrev pub add_tidy : Text → ℕ → List Text → List Text
  add_tidy item max_items items =
      if is_blank item || any (same_text item) items
      then items
      else last max_items (items ++ item ∷ [])

  unfoldable pub add_unique : List Text → Text → ℕ → List Text
  unfolding squeezed strip
  add_unique items item max_items = add_tidy (tidy item) max_items items

  unfoldable pub role_line : Message → ℕ → Text
  unfolding squeezed truncate_tokens
  role_line message max_tokens =
      codes "- "
      ++ role_label message.role
      ++ codes "："
      ++ truncate_tokens t true max_tokens (squeezed u.is_space message.content)

  unfoldable pub raw_role_line : Message → Text
  unfolding squeezed
  raw_role_line message =
      codes "- " ++ role_label message.role ++ codes "：" ++ squeezed u.is_space message.content

  unfoldable pub clip : Text → ℕ → Bool → Text
  unfolding squeezed truncate_tokens
  clip text max_tokens keep_end = truncate_tokens t keep_end max_tokens (squeezed u.is_space text)

  unfoldable pub message_text : Message → ℕ → Text
  unfolding squeezed truncate_tokens
  message_text message max_tokens =
      truncate_tokens t true max_tokens (squeezed u.is_space message.content)

  -- re.sub(r"\s+", "", text), and its test.
  unfoldable pub is_short_command : Text → Bool
  is_short_command text =
      let compact = select (λ c. not (u.is_space c)) text in
      any (same_text compact) short_commands || leb (length compact) 2
