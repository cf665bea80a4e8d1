-- ===== src/Render/Text/Wraps.antt =====
-- `_wrap` of src/labelfab/render/elements.py: what stands on the lines.
use labelfab.Common.{
  ℕ, ◌≤◌, ◌≡◌, ◌⊎◌, inl, inr, refl, subst, Bool, true, false, not, ◌&&◌, List, [], ◌∷◌, ◌++◌, some,
  length, All, All-append, ◌==◌, Bool-cases, arith,
}
use mathlib.Core.Option.{bind-eq-some_iff}
use labelfab.Render.Text.{
  Text, split_at, newline, Wrapping, trial, is_empty, new_line, end_line, end_line_if, put_char,
  place_word, split_word, wrap_word, wrap_words, wrap_paragraphs, words_of, or_blank, wrap,
}

-- A line that fits, or a single character, which cannot be cut.
abbrev pub Fit : (Text → Bool) → Text → Type 0
Fit fits line = (fits line ≡ true) ⊎ (length line ≤ 1)

module _ (fits : Text → Bool) where
  abbrev Fitting : Wrapping → Type 0
  Fitting s = All (Fit fits) s.lines × Fit fits s.current

  new_line-Fitting :
      (line : Text) (s : Wrapping) → Fit fits line → Fitting s → Fitting (new_line line s)
  new_line-Fitting line s h (lines, current) =
      (All-append (Fit fits) s.lines (s.current ∷ []) lines (current, tt), h)

  end_line_if-Fitting : (b : Bool) (s : Wrapping) → Fitting s → Fitting (end_line_if b s)
  end_line_if-Fitting true s h = new_line-Fitting [] s (inr (omega arith)) h
  end_line_if-Fitting false s h = h

  more-Fit :
      (current : Text) (ch : ℕ)
      → (not (fits (current ++ (ch ∷ []))) && not (is_empty current)) ≡ false
      → Fit fits (current ++ (ch ∷ []))
  more-Fit [] ch h = inr (omega arith)
  more-Fit (c ∷ cs) ch h = elim (Bool-cases (fits ((c ∷ cs) ++ (ch ∷ [])))) [
    | inl fitting ↦ inl fitting
    | inr wide ↦ let e : true ≡ false = rw wide at h in cc
  ]

  put_char-Fitting :
      (full : Bool) (ch : ℕ) (s : Wrapping)
      → (not (fits (s.current ++ (ch ∷ []))) && not (is_empty s.current)) ≡ full
      → Fitting s
      → Fitting (put_char full ch s)
  put_char-Fitting true ch s e h = new_line-Fitting (ch ∷ []) s (inr (omega arith)) h
  put_char-Fitting false ch s e h = (h.0, more-Fit s.current ch e)

  split_word-Fitting : (word : Text) (s : Wrapping) → Fitting s → Fitting (split_word fits word s)
  unfolding split_word
  split_word-Fitting [] s h = h
  split_word-Fitting (ch ∷ word) s h = split_word-Fitting word _ (put_char-Fitting _ ch s refl h)

  place_word-Fitting :
      (x y b : Bool) (word : Text) (s t : Wrapping)
      → fits (trial s.current word) ≡ x
      → fits word ≡ y
      → Fitting s
      → place_word fits x y b word s ≡ some t
      → Fitting t
  place_word-Fitting true y b word s t ex ey h e =
      let f : record s { current = trial s.current word } ≡ t = cc in subst Fitting f (h.0, inl ex)
  place_word-Fitting false true b word s t ex ey h e =
      let f : new_line word s ≡ t = cc in subst Fitting f (new_line-Fitting word s (inl ey) h)
  place_word-Fitting false false true word s t ex ey h e =
      let f : split_word fits word (end_line s) ≡ t = cc in
      subst Fitting f
        (split_word-Fitting word (end_line s) (end_line_if-Fitting (not (is_empty s.current)) s h))
  place_word-Fitting false false false word s t ex ey h e = cc

  wrap_words-Fitting :
      (b : Bool) (words : List Text) (s t : Wrapping)
      → Fitting s
      → wrap_words fits b words s ≡ some t
      → Fitting t
  unfolding wrap_words wrap_word
  wrap_words-Fitting b [] s t h e = let f : s ≡ t = cc in subst Fitting f h
  wrap_words-Fitting b (word ∷ words) s t h e =
      let (u, next, f) =
        (bind-eq-some_iff (wrap_word fits b word s) (λ (v : Wrapping). wrap_words fits b words v)).0
          e in
      wrap_words-Fitting b words u t (place_word-Fitting _ _ b word s u refl refl h next) f

  wrap_paragraphs-Fit :
      (b : Bool) (ps : List (List Text)) (before lines : List Text)
      → All (Fit fits) before
      → wrap_paragraphs fits b ps before ≡ some lines
      → All (Fit fits) lines
  unfolding wrap_paragraphs
  wrap_paragraphs-Fit b [] before lines h e =
      let f : before ≡ lines = cc in subst (λ ls. All (Fit fits) ls) f h
  wrap_paragraphs-Fit b (words ∷ ps) before lines h e =
      let start : Wrapping = record { lines = before; current = [] } in
      let (u, next, f) =
        (bind-eq-some_iff (wrap_words fits b words start)
            (λ (v : Wrapping). wrap_paragraphs fits b ps (v.lines ++ (v.current ∷ [])))).0
          e in
      let (full, last) = wrap_words-Fitting b words start u (h, inr (omega arith)) next in
      wrap_paragraphs-Fit b ps (u.lines ++ (u.current ∷ [])) lines
        (All-append (Fit fits) u.lines (u.current ∷ []) full (last, tt)) f

  or_blank-Fit : (lines : List Text) → All (Fit fits) lines → All (Fit fits) (or_blank lines)
  or_blank-Fit [] h = (inr (omega arith), tt)
  or_blank-Fit (l ∷ ls) h = h

-- Every line fits the width or is a single character.
pub wrap-Fit :
    (is_space : ℕ → Bool) (fits : Text → Bool) (b : Bool) (text : Text) (lines : List Text)
    → wrap is_space fits b text ≡ some lines
    → All (Fit fits) lines
unfolding wrap
wrap-Fit is_space fits b text lines e =
    let ps = words_of is_space (split_at (λ c. c == newline) [] text) in
    let (ls, made, f) =
      (bind-eq-some_iff (wrap_paragraphs fits b ps []) (λ (ls : List Text). some (or_blank ls))).0
        e in
    let g : or_blank ls ≡ lines = cc in
    subst (λ xs. All (Fit fits) xs) g
      (or_blank-Fit fits ls (wrap_paragraphs-Fit fits b ps [] ls tt made))
