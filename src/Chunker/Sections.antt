-- ===== src/Chunker/Sections.antt =====
-- `_split_markdown_sections` (chunker.py): the sections between the headings, each with the path of
-- headings that leads to it.
use agentic_learning_platfor.Base.{
  ℕ, suc, ◌-◌, ◌≤◌, Text, Unicode, strip, ◌≡◌, refl, sym, ap, subst, ◌∙◌, some_inj, inl, inr, Bool,
  true, false, not, ◌&&◌, Option, none, some, Option-cases, List, [], ◌∷◌, ◌++◌, take, drop, length,
  length-append, length-take, All, All-append, leb, ◌==◌, arith, Bool-cases, if◌then◌else◌,
}
use agentic_learning_platfor.Chunker.Clean.{clean_markdown, is_empty, is_fence, join_lines}
use agentic_learning_platfor.Chunker.Markdown.{split_lines}

-- The path is None where it is empty; the source joins it by " > ".
pub record MarkdownSection : Type 0 where
  pub heading_path : List Text
  pub content : Text

abbrev pub count_hashes : Text → ℕ
count_hashes [] = 0
count_hashes (c ∷ text) = if c == 35 then suc (count_hashes text) else 0

abbrev pub starts_with_space : Unicode → Text → Bool
starts_with_space u [] = false
starts_with_space u (c ∷ text) = u.is_space c

-- re.match(r"^(#{1,6})\s+(.+?)\s*$", stripped) with the level and the title; a text that is stripped has
-- no white space at its end.
unfoldable pub heading : Unicode → Text → Option (ℕ × Text)
unfolding strip
heading u stripped =
    let level = count_hashes stripped in
    let title = strip u.is_space (drop level stripped) in
    if leb 1 level
      && leb level 6
      && starts_with_space u (drop level stripped)
      && not (is_empty title)
    then some (level, title)
    else none

module _ (u : Unicode) where
  unfoldable pub flush : List Text → List Text → List MarkdownSection
  unfolding clean_markdown join_lines
  flush heading_stack buffer =
      let content = clean_markdown u (join_lines buffer) in
      if is_empty content
      then []
      else record { heading_path = heading_stack; content = content } ∷ []

  abbrev pub heading_outside : Bool → Text → Option (ℕ × Text)
  heading_outside true stripped = none
  heading_outside false stripped = heading u stripped

  abbrev pub fence_after : Bool → Text → Bool
  fence_after in_fence stripped = if is_fence stripped then not in_fence else in_fence

  unfoldable pub sections : Bool → List Text → List Text → List Text → List MarkdownSection
  unfolding flush heading strip
  sections in_fence heading_stack buffer [] = flush heading_stack buffer
  sections in_fence heading_stack buffer (line ∷ lines) =
      let stripped = strip u.is_space line in
      let fence = fence_after in_fence stripped in
      elim (heading_outside fence stripped) [
        | none ↦ sections fence heading_stack (buffer ++ line ∷ []) lines
        | some h ↦
            flush heading_stack buffer
            ++ sections fence (take (h.0 - 1) heading_stack ++ h.1 ∷ []) [] lines
      ]

  abbrev pub or_all : Text → List MarkdownSection → List MarkdownSection
  or_all cleaned [] =
      if is_empty cleaned then [] else record { heading_path = []; content = cleaned } ∷ []
  or_all cleaned (s ∷ ss) = s ∷ ss

  unfoldable pub split_markdown_sections : Text → List MarkdownSection
  unfolding sections clean_markdown split_lines
  split_markdown_sections markdown =
      let cleaned = clean_markdown u markdown in
      or_all cleaned (sections false [] [] (split_lines [] cleaned))

  abbrev pub IsSection : MarkdownSection → Type 0
  IsSection s = (is_empty s.content ≡ false) × (length s.heading_path ≤ 6)

  flush-All : (stack buffer : List Text) → length stack ≤ 6 → All IsSection (flush stack buffer)
  unfolding flush
  flush-All stack buffer h = elim (Bool-cases (is_empty (clean_markdown u (join_lines buffer)))) [
    | inl e ↦ rw (flush, e) tt
    | inr e ↦ rw (flush, e) ((e, h), tt)
  ]

  heading_level :
      (fence : Bool) (stripped : Text) (t : ℕ × Text)
      → heading_outside fence stripped ≡ some t
      → t.0 ≤ 6
  unfolding heading
  heading_level true stripped t h = cc
  heading_level false stripped t h =
      let level = count_hashes stripped in
      let title = strip u.is_space (drop level stripped) in
      elim (Bool-cases (
        leb 1 level
        && leb level 6
        && starts_with_space u (drop level stripped)
        && not (is_empty title))) [
          | inl e ↦
              let found : heading u stripped ≡ some (level, title) = rw (heading, e) refl in
              let same : level ≡ t.0 = ap (λ x. x.0) (some_inj (sym found ∙ h)) in
              subst (λ n. n ≤ 6) same (level_of _ _ _ _ e)
          | inr e ↦ let found : heading u stripped ≡ none = rw (heading, e) refl in cc (found, h)
        ]
    where
      level_of : (a : Bool) (n : ℕ) (c d : Bool) → (a && leb n 6 && c && d) ≡ true → n ≤ 6
      level_of a n c d e = ground arith

  path_fits :
      (stack : List Text) (level : ℕ) (title : Text)
      → level ≤ 6
      → length stack ≤ 6
      → length (take (level - 1) stack ++ title ∷ []) ≤ 6
  path_fits stack level title l h =
      omega
        (arith, length-append (take (level - 1) stack) (title ∷ []), length-take (level - 1) stack)

  sections-All :
      (lines stack buffer : List Text) (in_fence : Bool)
      → length stack ≤ 6
      → All IsSection (sections in_fence stack buffer lines)
  unfolding sections
  sections-All [] stack buffer in_fence h = flush-All stack buffer h
  sections-All (line ∷ lines) stack buffer in_fence h =
      let stripped = strip u.is_space line in
      let fence = fence_after in_fence stripped in
      elim (Option-cases (heading_outside fence stripped)) [
        | inl e ↦ rw (sections, e) (sections-All lines stack (buffer ++ line ∷ []) fence h)
        | inr (t, e) ↦
            rw (sections, e)
              (All-append IsSection (flush stack buffer) _ (flush-All stack buffer h) (
                sections-All lines (take (t.0 - 1) stack ++ t.1 ∷ []) [] fence
                  (path_fits stack t.0 t.1 (heading_level fence stripped t e) h)))
      ]

  -- Every section has text, and a path of at most six headings.
  pub split_markdown_sections-IsSection :
      (markdown : Text) → All IsSection (split_markdown_sections markdown)
  unfolding split_markdown_sections
  split_markdown_sections-IsSection markdown =
      let cleaned = clean_markdown u markdown in
      or_all-All cleaned (sections false [] [] (split_lines [] cleaned))
        (sections-All (split_lines [] cleaned) [] [] false (omega arith))
    where
      or_all-All :
          (cleaned : Text) (ss : List MarkdownSection)
          → All IsSection ss
          → All IsSection (or_all cleaned ss)
      or_all-All cleaned (s ∷ ss) h = h
      or_all-All cleaned [] h = elim (Bool-cases (is_empty cleaned)) [
        | inl e ↦ rw e tt
        | inr e ↦ rw e ((e, omega arith), tt)
      ]
