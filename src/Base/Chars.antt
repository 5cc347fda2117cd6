-- ===== src/Base/Chars.antt =====
-- Text that the program walks is a list of code points; Python's Unicode tables are a parameter.
use Prim.Native.Nat.{ℕ}
use Prim.Native.Char.{code}
use Prim.Native.String.{String}
use mathlib.Core.Path.{◌≡◌, refl}
use native.Mathlib.Omega.{arith}
use mathlib.Core.Bool.{Bool, true, false, ◌&&◌, ◌||◌}
use mathlib.Core.List.{List, [], ◌∷◌, ◌++◌, reverse}
use agentic_learning_platfor.Base.Tests.{◌==◌, if◌then◌else◌}

abbrev pub Text : Type 0
Text = List ℕ

abbrev pub codes : String → Text
codes String.[] = []
codes (String.◌∷◌ c s) = code c ∷ codes s

-- What the program takes from Python's `str` and `re`, which go by the Unicode tables.
pub record Unicode : Type 0 where
  pub lower : Text → Text
  pub is_space : ℕ → Bool
  pub is_word : ℕ → Bool

abbrev pub same_text : Text → Text → Bool
same_text [] [] = true
same_text (a ∷ s) (b ∷ t) = a == b && same_text s t
same_text _ _ = false

pub same_text_sym : (a b : Text) → same_text a b ≡ same_text b a
same_text_sym [] [] = refl
same_text_sym [] (b ∷ t) = refl
same_text_sym (a ∷ s) [] = refl
same_text_sym (a ∷ s) (b ∷ t) = ground (arith, same_text_sym s t)

pub same_text_refl : (a : Text) → same_text a a ≡ true
same_text_refl [] = refl
same_text_refl (a ∷ s) = ground (arith, same_text_refl s)

-- text.startswith(prefix)
unfoldable pub starts_with : Text → Text → Bool
starts_with text [] = true
starts_with [] (p ∷ prefix) = false
starts_with (c ∷ text) (p ∷ prefix) = c == p && starts_with text prefix

-- `needle in text`
unfoldable pub contains : Text → Text → Bool
unfolding starts_with
contains [] needle = starts_with [] needle
contains (c ∷ text) needle = starts_with (c ∷ text) needle || contains text needle

-- text.lstrip(), text.rstrip(), text.strip()
unfoldable pub lstrip : (ℕ → Bool) → Text → Text
lstrip space [] = []
lstrip space (c ∷ text) = let rest = lstrip space text in if space c then rest else c ∷ text

unfoldable pub rstrip : (ℕ → Bool) → Text → Text
unfolding lstrip
rstrip space text = reverse (lstrip space (reverse text))

unfoldable pub strip : (ℕ → Bool) → Text → Text
unfolding rstrip lstrip
strip space text = rstrip space (lstrip space text)

-- separator.join(texts)
unfoldable pub joined : Text → List Text → Text
joined separator [] = []
joined separator (text ∷ []) = text
joined separator (text ∷ next ∷ others) = text ++ separator ++ joined separator (next ∷ others)

-- text.split() and a word that has been read so far.
unfoldable pub words : (ℕ → Bool) → Text → Text → List Text
words space [] [] = []
words space (w ∷ word) [] = (w ∷ word) ∷ []
words space [] (c ∷ text) =
    let inside = words space (c ∷ []) text in
    let outside = words space [] text in if space c then outside else inside
words space (w ∷ word) (c ∷ text) =
    let inside = words space (w ∷ (word ++ c ∷ [])) text in
    let outside = words space [] text in if space c then (w ∷ word) ∷ outside else inside

-- " ".join(text.split())
unfoldable pub squeezed : (ℕ → Bool) → Text → Text
unfolding joined words
squeezed space text = joined (32 ∷ []) (words space [] text)

-- re.sub of the runs of a class of characters; `inside` is whether a run has been replaced just before.
unfoldable pub sub_runs : (ℕ → Bool) → ℕ → Bool → Text → Text
sub_runs in_class by inside [] = []
sub_runs in_class by inside (c ∷ text) =
    let within = sub_runs in_class by true text in
    let beyond = sub_runs in_class by false text in
    if in_class c then (if inside then within else by ∷ within) else c ∷ beyond
