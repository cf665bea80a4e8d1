-- ===== src/Render/Text/Lines.antt =====
-- `_wrap` of src/labelfab/render/elements.py: the lines of a text whose words may be broken.
use mathlib.Core.Option.{bind, bind-eq-some_iff}
use labelfab.Common.{
  ℕ, ◌≡◌, refl, subst, ap, ◌∙◌, Bool, true, false, List, [], ◌∷◌, ◌++◌, some, ◌==◌, All, length,
  ◌<◌, arith,
}
use labelfab.Render.Text.{
  Text, split_at, newline, blank, Wrapping, trial, place_word, wrap_word, wrap_words,
  wrap_paragraphs, words_of, or_blank, wrap,
}
use labelfab.Render.Text.Wraps.{Fit, wrap-Fit}
use labelfab.Render.Text.Letters.{letters, letters_all, letters_all-wrap}

module _ (fits : Text → Bool) where
  place_word-total :
      (x y : Bool) (word : Text) (s : Wrapping)
      → (t : Wrapping) × (place_word fits x y true word s ≡ some t)
  place_word-total true y word s = (_, refl)
  place_word-total false true word s = (_, refl)
  place_word-total false false word s = (_, refl)

  wrap_words-total :
      (words : List Text) (s : Wrapping) → (t : Wrapping) × (wrap_words fits true words s ≡ some t)
  unfolding wrap_words wrap_word bind
  wrap_words-total [] s = (s, refl)
  wrap_words-total (word ∷ words) s =
      let (u, next) = place_word-total (fits (trial s.current word)) (fits word) word s in
      let (t, rest) = wrap_words-total words u in
      (t, ap (λ o. bind o (λ (v : Wrapping). wrap_words fits true words v)) next ∙ rest)

  wrap_paragraphs-total :
      (ps : List (List Text)) (before : List Text)
      → (lines : List Text) × (wrap_paragraphs fits true ps before ≡ some lines)
  unfolding wrap_paragraphs bind
  wrap_paragraphs-total [] before = (before, refl)
  wrap_paragraphs-total (words ∷ ps) before =
      let (u, next) = wrap_words-total words (record { lines = before; current = [] }) in
      let (t, rest) = wrap_paragraphs-total ps (u.lines ++ (u.current ∷ [])) in
      (
        t,
        ap
              (λ o.
                bind o
                  (λ (v : Wrapping). wrap_paragraphs fits true ps (v.lines ++ (v.current ∷ []))))
              next
            ∙ rest,
      )

-- When words may be broken, every text is wrapped: each line fits the width or is one character, and
-- the lines have the text's characters in order, blanks apart.
pub wrap-lines :
    (is_space : ℕ → Bool) (fits : Text → Bool) (text : Text)
    → is_space blank ≡ true
    → is_space newline ≡ true
    → (lines : List Text) × (wrap is_space fits true text ≡ some lines)
      × All (Fit fits) lines
      × (letters_all is_space lines ≡ letters is_space text)
unfolding wrap bind
wrap-lines is_space fits text blank_space line_space =
    let ps = words_of is_space (split_at (λ c. c == newline) [] text) in
    let (ls, made) = wrap_paragraphs-total fits ps [] in
    let whole : wrap is_space fits true text ≡ some (or_blank ls) =
      ap (λ o. bind o (λ (ls : List Text). some (or_blank ls))) made in
    (
      or_blank ls,
      whole,
      wrap-Fit is_space fits true text (or_blank ls) whole,
      letters_all-wrap is_space fits true text (or_blank ls) blank_space line_space whole,
    )

length-or_blank : (lines : List Text) → 0 < length (or_blank lines)
length-or_blank [] = omega arith
length-or_blank (l ∷ ls) = omega arith

-- There is always a line.
pub length-wrap :
    (is_space : ℕ → Bool) (fits : Text → Bool) (b : Bool) (text : Text) (lines : List Text)
    → wrap is_space fits b text ≡ some lines
    → 0 < length lines
unfolding wrap
length-wrap is_space fits b text lines e =
    let ps = words_of is_space (split_at (λ c. c == newline) [] text) in
    let (ls, made, f) =
      (bind-eq-some_iff (wrap_paragraphs fits b ps []) (λ (ls : List Text). some (or_blank ls))).0
        e in
    let g : or_blank ls ≡ lines = cc in subst (λ xs. 0 < length xs) g (length-or_blank ls)
