-- ===== src/Chunker/Clean.antt =====
-- `clean_text`, `clean_markdown`, `approx_token_len`, `_split_sentences` (chunker.py).
use agentic_learning_platfor.Base.{
  ℕ, ◌-◌, Text, Unicode, codes, strip, lstrip, rstrip, starts_with, Bool, true, false, ◌||◌, not,
  List, [], ◌∷◌, ◌++◌, reverse, map, take, length, ◌==◌, if◌then◌else◌,
}
use agentic_learning_platfor.TokenBudget.{between, estimate}

abbrev pub newline : ℕ
newline = 10

-- .replace("\r\n", "\n").replace("\r", "\n")
unfoldable pub unix_newlines : Text → Text
unix_newlines [] = []
unix_newlines (c ∷ []) = (if c == 13 then newline else c) ∷ []
unix_newlines (c ∷ d ∷ text) =
    let rest = unix_newlines (d ∷ text) in
    if c == 13 then if d == newline then rest else newline ∷ rest else c ∷ rest

-- The other replacements: two kinds of space, and three characters that go.
unfoldable pub plain_characters : Text → Text
plain_characters [] = []
plain_characters (c ∷ text) =
    let rest = plain_characters text in
    if c == 0xa0 || c == 0x3000
    then 32 ∷ rest
    else if c == 0x200b || c == 0xfeff || c == 0
    then rest
    else c ∷ rest

unfoldable pub normalized : Text → Text
unfolding unix_newlines plain_characters
normalized text = plain_characters (unix_newlines text)

-- text.split("\n"): always one line at least.
unfoldable pub split_newlines : Text → List Text
split_newlines [] = [] ∷ []
split_newlines (c ∷ text) =
    let rest = split_newlines text in
    if c == newline
    then [] ∷ rest
    else elim rest [ [] ↦ (c ∷ []) ∷ [] | line ∷ lines ↦ (c ∷ line) ∷ lines ]

-- "\n".join(lines)
unfoldable pub join_lines : List Text → Text
join_lines [] = []
join_lines (line ∷ []) = line
join_lines (line ∷ next ∷ lines) = line ++ (newline ∷ join_lines (next ∷ lines))

-- [\t\f\v ]
abbrev pub is_blank : ℕ → Bool
is_blank c = c == 9 || c == 12 || c == 11 || c == 32

-- re.sub(r"[\t\f\v ]+", " ", text): `inside` tells that the last character was one of them.
unfoldable pub squeeze : Bool → Text → Text
squeeze inside [] = []
squeeze inside (c ∷ text) =
    let rest = squeeze (is_blank c) text in
    if is_blank c then (if inside then rest else 32 ∷ rest) else c ∷ rest

abbrev pub is_empty : Text → Bool
is_empty [] = true
is_empty (c ∷ text) = false

-- The loop that keeps a blank line only behind a line that is not blank; `last_blank` tells that the
-- result is empty or ends with a blank line.
unfoldable pub collapse : Bool → List Text → List Text
collapse last_blank [] = []
collapse last_blank (line ∷ lines) =
    let rest = collapse (is_empty line) lines in
    if is_empty line then (if last_blank then rest else [] ∷ rest) else line ∷ rest

-- The loop that pops blank lines off the end.
unfoldable pub drop_blank : List Text → List Text
drop_blank [] = []
drop_blank (line ∷ lines) =
    let rest = drop_blank lines in if is_empty line then rest else line ∷ lines

unfoldable pub pop_blank : List Text → List Text
unfolding drop_blank
pop_blank lines = reverse (drop_blank (reverse lines))

unfoldable pub text_lines : Unicode → Text → List Text
unfolding squeeze strip
text_lines u text =
    map (λ raw. strip u.is_space (squeeze false raw)) (split_newlines (normalized text))

unfoldable pub clean_text : Unicode → Text → Text
unfolding text_lines collapse pop_blank join_lines
clean_text u text = join_lines (pop_blank (collapse true (text_lines u text)))

abbrev pub is_fence : Text → Bool
is_fence stripped = starts_with stripped (codes "```") || starts_with stripped (codes "~~~")

-- leading.replace("\t", "    ")
unfoldable pub expand_tabs : Text → Text
expand_tabs [] = []
expand_tabs (c ∷ text) =
    let rest = expand_tabs text in if c == 9 then 32 ∷ 32 ∷ 32 ∷ 32 ∷ rest else c ∷ rest

unfoldable pub prose_line : Unicode → Text → Text
unfolding squeeze strip expand_tabs lstrip
prose_line u raw =
    let content = squeeze false (strip u.is_space raw) in
    let leading = take (length raw - length (lstrip u.is_space raw)) raw in
    if is_empty content then [] else expand_tabs leading ++ content

-- The lines of the loop: a fence turns `in_fence` over, and code keeps its blanks.
unfoldable pub markdown_lines : Unicode → Bool → List Text → List Text
unfolding prose_line strip rstrip
markdown_lines u in_fence [] = []
markdown_lines u in_fence (raw ∷ lines) =
    let fence = is_fence (strip u.is_space raw) in
    let rest = markdown_lines u (if fence then not in_fence else in_fence) lines in
    (if fence || in_fence then rstrip u.is_space raw else prose_line u raw) ∷ rest

unfoldable pub clean_markdown : Unicode → Text → Text
unfolding markdown_lines collapse pop_blank join_lines
clean_markdown u markdown =
    join_lines
      (pop_blank (collapse true (markdown_lines u false (split_newlines (normalized markdown)))))

-- [\u3400-\u4dbf\u4e00-\u9fff\uf900-\ufaff]
unfoldable pub is_cjk : ℕ → Bool
is_cjk c = between 0x3400 0x4dbf c || between 0x4e00 0x9fff c || between 0xf900 0xfaff c

unfoldable pub approx_token_len : Unicode → Text → ℕ
unfolding estimate is_cjk
approx_token_len u text = estimate u is_cjk text

-- [。！？?!.]
abbrev pub ends_sentence : ℕ → Bool
ends_sentence c = c == 0x3002 || c == 0xff01 || c == 0xff1f || c == 0x3f || c == 0x21 || c == 0x2e

-- The cuts of re.split: behind the end of a sentence and at a newline. The white space that the
-- pattern takes with them is stripped off the parts in any case.
unfoldable pub cut_sentences : Text → List Text
cut_sentences [] = [] ∷ []
cut_sentences (c ∷ text) =
    let rest = cut_sentences text in
    if c == newline
    then [] ∷ rest
    else if ends_sentence c
    then (c ∷ []) ∷ rest
    else elim rest [ [] ↦ (c ∷ []) ∷ [] | part ∷ parts ↦ (c ∷ part) ∷ parts ]

unfoldable pub stripped_parts : Unicode → List Text → List Text
unfolding strip
stripped_parts u [] = []
stripped_parts u (part ∷ parts) =
    let rest = stripped_parts u parts in
    let stripped = strip u.is_space part in if is_empty stripped then rest else stripped ∷ rest

unfoldable pub split_sentences : Unicode → Text → List Text
unfolding cut_sentences stripped_parts
split_sentences u text = stripped_parts u (cut_sentences text)
