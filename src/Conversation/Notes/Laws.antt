-- ===== src/Conversation/Notes/Laws.antt =====
-- The notes of a section: few, each once, and none of them blank.
use agentic_learning_platfor.Base.{
  ℕ, zero, suc, ◌-◌, ◌≤◌, String, Text, same_text, same_text_sym, strip, ◌≡◌, refl, sym, Bool, true,
  false, ◌||◌, List, [], ◌∷◌, ◌++◌, any, map, length, drop, length-drop, arith, if◌then◌else◌, get,
  put, get-put, str_eq, eq_iff, Bool-cases, inl, inr, in_either_branch,
}
use agentic_learning_platfor.TokenBudget.{Tokenizer}
use agentic_learning_platfor.Conversation.Notes.{
  Message, Patterns, Section, Sections, ordered_sections, last, is_blank, section_of, add_unique,
  tidy,
}
use agentic_learning_platfor.Conversation.Notes.Extract.{
  Extracted, note, note_all, note_if, user_notes, project_notes, extract_text, found_notes,
  extract_messages, note_metrics, extract_summary_sections, empty_sections, nothing_yet,
  with_last_values,
}

-- No two texts of the list are the same, and none is blank.
abbrev pub Distinct : List Text → Type 0
Distinct [] = Unit
Distinct (x ∷ xs) = (is_blank x ≡ false) × (any (same_text x) xs ≡ false) × Distinct xs

any-snoc :
    (x y : Text) (xs : List Text)
    → any (same_text x) xs ≡ false
    → same_text x y ≡ false
    → any (same_text x) (xs ++ y ∷ []) ≡ false
any-snoc x y [] h k = ground arith
any-snoc x y (z ∷ xs) h k = ground (arith, any-snoc x y xs)

Distinct-snoc :
    (y : Text) (xs : List Text)
    → is_blank y ≡ false
    → any (same_text y) xs ≡ false
    → Distinct xs
    → Distinct (xs ++ y ∷ [])
Distinct-snoc y [] blank h d = (blank, refl, tt)
Distinct-snoc y (x ∷ xs) blank h (b, e, d) = (
  b,
  any-snoc x y xs e (ground (arith, same_text_sym x y)),
  Distinct-snoc y xs blank (ground arith) d,
)

Distinct-drop : (n : ℕ) (xs : List Text) → Distinct xs → Distinct (drop n xs)
Distinct-drop zero xs d = d
Distinct-drop (suc n) [] d = tt
Distinct-drop (suc n) (x ∷ xs) (b, e, d) = Distinct-drop n xs d

-- The `max_items` of each section.
abbrev pub max_items_of : String → ℕ
max_items_of key =
    if str_eq key "paths"
    then 10
    else if str_eq key "project_context"
    then 8
    else if str_eq key "constraints"
    then 10
    else if str_eq key "decisions"
    then 10
    else if str_eq key "todos"
    then 8
    else if str_eq key "run_results"
    then 6
    else if str_eq key "raw_fallback"
    then 4
    else 12

abbrev pub IsTidy : ℕ → List Text → Type 0
IsTidy n items = (length items ≤ n) × Distinct items

pub record AllTidy (sections : Sections) : Type 0 where
  pub at : (key : String) → IsTidy (max_items_of key) (section_of key sections)

section_of-empty :
    (key : String) (ss : List Section) → section_of key (map (λ (s : Section). (s.key, [])) ss) ≡ []
unfolding get
section_of-empty key [] = refl
section_of-empty key (s ∷ ss) = elim (Bool-cases (str_eq s.key key)) [
  | inl e ↦ ground arith
  | inr e ↦ ground (arith, section_of-empty key ss)
]

module _ (t : Tokenizer) where
  add_unique-IsTidy :
      (items : List Text) (item : Text) (n : ℕ)
      → IsTidy n items
      → IsTidy n (add_unique t items item n)
  unfolding add_unique
  add_unique-IsTidy items item n (le, d) =
      elim (Bool-cases (is_blank (tidy t item) || any (same_text (tidy t item)) items)) [
        | inl e ↦ rw e (le, d)
        | inr e ↦ rw e (
          omega (
            arith,
            length-drop (length (items ++ tidy t item ∷ []) - n) (items ++ tidy t item ∷ []),
          ),
          Distinct-drop _ (items ++ tidy t item ∷ [])
              (Distinct-snoc (tidy t item) items (ground arith) (ground arith) d),
        )
      ]

  section_of-put :
      (key other : String) (items : List Text) (sections : Sections)
      → section_of other (put key items sections)
        ≡ (if str_eq key other then items else section_of other sections)
  section_of-put key other items sections = ground (arith, get-put key other items sections)

  note-AllTidy :
      (key : String) (item : Text) (sections : Sections)
      → AllTidy sections
      → AllTidy (note t key (max_items_of key) item sections)
  unfolding note
  note-AllTidy key item sections all = record {
    at = λ other.
        rw
          (section_of-put key other (add_unique t (section_of key sections) item (max_items_of key))
            sections)
          (elim (Bool-cases (str_eq key other)) [
            | inl e ↦
                rw (e, sym ((eq_iff key other).0 e))
                  (add_unique-IsTidy (section_of key sections) item (max_items_of key) (all.at key))
            | inr e ↦ rw e (all.at other)
          ]);
  }

  note_all-AllTidy :
      (key : String) (items : List Text) (sections : Sections)
      → AllTidy sections
      → AllTidy (note_all t key (max_items_of key) items sections)
  unfolding note_all
  note_all-AllTidy key [] sections all = all
  note_all-AllTidy key (item ∷ items) sections all =
      note_all-AllTidy key items _ (note-AllTidy key item sections all)

  note_if-AllTidy :
      (wanted : Bool) (key : String) (item : Text) (sections : Sections)
      → AllTidy sections
      → AllTidy (note_if t wanted key (max_items_of key) item sections)
  note_if-AllTidy true key item sections all = note-AllTidy key item sections all
  note_if-AllTidy false key item sections all = all

  user_notes-AllTidy :
      (text : Text) (sections : Sections) → AllTidy sections → AllTidy (user_notes t text sections)
  unfolding user_notes
  user_notes-AllTidy text sections all =
      note_if-AllTidy _ "todos" text _
        (note_if-AllTidy _ "decisions" text _ (note_if-AllTidy _ "constraints" text sections all))

  project_notes-AllTidy :
      (text : Text) (sections : Sections)
      → AllTidy sections
      → AllTidy (project_notes t text sections)
  unfolding project_notes
  project_notes-AllTidy text sections all = note_if-AllTidy _ "project_context" _ sections all

  module _ (p : Patterns) where
    found_notes-AllTidy :
        (text : Text) (sections : Sections)
        → AllTidy sections
        → AllTidy (found_notes t p text sections)
    unfolding found_notes
    found_notes-AllTidy text sections all = project_notes-AllTidy text _ (
        note_all-AllTidy "config_params" (map (strip t.unicode.is_space) (p.params text)) _
          (note_all-AllTidy "paths" (p.paths text) sections all))

    extract_text-AllTidy :
        (role : String) (text : Text) (e : Extracted)
        → AllTidy e.sections
        → AllTidy (extract_text t p role text e).sections
    unfolding extract_text
    extract_text-AllTidy role text e all =
        let found = found_notes-AllTidy text e.sections all in
        in_either_branch AllTidy (user_notes-AllTidy text _ found) found (str_eq role "user")

    extract_messages-AllTidy :
        (messages : List Message) (e : Extracted)
        → AllTidy e.sections
        → AllTidy (extract_messages t p messages e).sections
    unfolding extract_messages
    extract_messages-AllTidy [] e all = all
    extract_messages-AllTidy (message ∷ messages) e all = extract_messages-AllTidy messages _ (
        in_either_branch (λ (x : Extracted). AllTidy x.sections) all
          (extract_text-AllTidy message.role _ e all) _)

    note_metrics-AllTidy :
        (metrics : List (Text × Text)) (sections : Sections)
        → AllTidy sections
        → AllTidy (note_metrics t p metrics sections)
    note_metrics-AllTidy [] sections all = all
    note_metrics-AllTidy (m ∷ metrics) sections all = note-AllTidy "run_results" _ sections all

    empty-AllTidy : AllTidy (empty_sections t p)
    empty-AllTidy = record {
      at = λ key. rw (section_of-empty key ordered_sections) (omega arith, tt);
    }

    with_last_values-AllTidy :
        (e : Extracted) → AllTidy e.sections → AllTidy (with_last_values t p e)
    unfolding with_last_values
    with_last_values-AllTidy e all = note_all-AllTidy "raw_fallback" (last 4 e.raw_candidates) _ (
        note_metrics-AllTidy e.metrics _ (
          note_all-AllTidy "config_params" (map (λ (entry : Text × Text). entry.1) e.configs) _
            all))

    -- Whatever the messages hold, the notes of a section are at most as many as its `max_items`, no two
    -- of them are the same, and none is blank.
    pub extract_summary_sections-AllTidy :
        (messages : List Message) → AllTidy (extract_summary_sections t p messages)
    unfolding extract_summary_sections
    extract_summary_sections-AllTidy messages =
        with_last_values-AllTidy (extract_messages t p messages (nothing_yet t p))
          (extract_messages-AllTidy messages (nothing_yet t p) empty-AllTidy)
