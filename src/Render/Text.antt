-- ===== src/Render/Text.antt =====
-- `_wrap` and `TextDraw` of src/labelfab/render/elements.py. A text is a list of code points. Fonts are
-- Pillow's: parameters say which text fits which width, and how high a line is. A point size is a
-- parameter too, with the arithmetic of Python's floats on it.

pub mod Wraps
pub mod Letters
pub mod Lines
pub mod Fonts
use labelfab.Common.{
  ℕ, zero, suc, ◌+◌, ◌-◌, ◌*◌, ◌/◌, min, max, Bool, true, false, not, ◌&&◌, ◌||◌, List, [], ◌∷◌,
  ◌++◌, Option, none, some, length, take, leb, ltb, ◌==◌, if◌then◌else◌, Result, ok, err,
}
use mathlib.Core.Option.{bind}
use labelfab.Render.Layout.{Rect}

abbrev pub Text : Type 0
Text = List ℕ

-- `if word: ... append(word)`
abbrev pub unless_blank : Text → List Text
unless_blank [] = []
unless_blank (c ∷ cs) = (c ∷ cs) ∷ []

-- `text.split(sep)` with a separator, and `text.split()` at blanks, `part` being what was read of the
-- part that is not over.
unfoldable pub split_at : (ℕ → Bool) → Text → Text → List Text
split_at sep part [] = part ∷ []
split_at sep part (c ∷ cs) =
    let rest = split_at sep (if sep c then [] else part ++ (c ∷ [])) cs in
    if sep c then part ∷ rest else rest

unfoldable pub words_from : (ℕ → Bool) → Text → Text → List Text
words_from is_space part [] = unless_blank part
words_from is_space part (c ∷ cs) =
    let rest = words_from is_space (if is_space c then [] else part ++ (c ∷ [])) cs in
    if is_space c then unless_blank part ++ rest else rest

abbrev pub newline : ℕ
newline = 10

abbrev pub blank : ℕ
blank = 32

-- The lines so far, and the line that is being filled.
pub record Wrapping : Type 0 where
  pub lines : List Text
  pub current : Text

-- `f"{current} {word}".strip()`: a word has no blanks around it, nor has a line.
abbrev pub trial : Text → Text → Text
trial [] word = word
trial (c ∷ cs) word = (c ∷ cs) ++ blank ∷ word

abbrev pub is_empty : Text → Bool
is_empty [] = true
is_empty (c ∷ cs) = false

-- `lines.append(current); current = line`
abbrev pub new_line : Text → Wrapping → Wrapping
new_line line s = record { lines = s.lines ++ (s.current ∷ []); current = line }

-- `if current: lines.append(current); current = ""`
abbrev pub end_line_if : Bool → Wrapping → Wrapping
end_line_if true s = new_line [] s
end_line_if false s = s

abbrev pub end_line : Wrapping → Wrapping
end_line s = end_line_if (not (is_empty s.current)) s

-- A character on a line of its own, or after the others.
abbrev pub put_char : Bool → ℕ → Wrapping → Wrapping
put_char true ch s = new_line (ch ∷ []) s
put_char false ch s = record s { current = s.current ++ (ch ∷ []) }

module _ (fits : Text → Bool) where
  -- `for ch in word`
  unfoldable pub split_word : Text → Wrapping → Wrapping
  split_word [] s = s
  split_word (ch ∷ word) s =
      split_word word
        (put_char (not (fits (s.current ++ (ch ∷ []))) && not (is_empty s.current)) ch s)

  -- Whether the word fits after the others, whether it fits alone, and whether it may be broken.
  abbrev pub place_word : Bool → Bool → Bool → Text → Wrapping → Option Wrapping
  place_word true _ _ word s = some (record s { current = trial s.current word })
  place_word false true _ word s = some (new_line word s)
  place_word false false true word s = some (split_word word (end_line s))
  place_word false false false word s = none

  unfoldable pub wrap_word : Bool → Text → Wrapping → Option Wrapping
  wrap_word break_words word s =
      place_word (fits (trial s.current word)) (fits word) break_words word s

  unfoldable pub wrap_words : Bool → List Text → Wrapping → Option Wrapping
  wrap_words break_words [] s = some s
  wrap_words break_words (word ∷ words) s =
      bind (wrap_word break_words word s) (λ t. wrap_words break_words words t)

  -- The loop over the paragraphs, with the words of each.
  unfoldable pub wrap_paragraphs : Bool → List (List Text) → List Text → Option (List Text)
  wrap_paragraphs break_words [] lines = some lines
  wrap_paragraphs break_words (words ∷ paragraphs) lines =
      bind (wrap_words break_words words (record { lines = lines; current = [] }))
        (λ t. wrap_paragraphs break_words paragraphs (t.lines ++ (t.current ∷ [])))

unfoldable pub words_of : (ℕ → Bool) → List Text → List (List Text)
words_of is_space [] = []
words_of is_space (p ∷ ps) = words_from is_space [] p ∷ words_of is_space ps

-- `lines or [""]`
abbrev pub or_blank : List Text → List Text
or_blank [] = [] ∷ []
or_blank (l ∷ ls) = l ∷ ls

-- `_wrap`, with the width in `fits`
unfoldable pub wrap : (ℕ → Bool) → (Text → Bool) → Bool → Text → Option (List Text)
wrap is_space fits break_words text =
    bind
      (wrap_paragraphs fits break_words (words_of is_space (split_at (λ c. c == newline) [] text))
        [])
      (λ lines. some (or_blank lines))
