-- ===== src/Render/Text/Letters.antt =====
-- `_wrap` of src/labelfab/render/elements.py: that no character of a text is lost.
use mathlib.Core.Option.{bind-eq-some_iff}
use labelfab.Common.{
  ℕ, ◌≡◌, refl, ap, sym, ◌∙◌, Bool, true, false, not, ◌&&◌, List, [], ◌∷◌, ◌++◌, append_assoc,
  append-nil, some, ◌==◌, ==→eq, Bool-cases, inl, inr,
}
use labelfab.Render.Text.{
  Text, unless_blank, split_at, words_from, newline, blank, Wrapping, trial, is_empty, new_line,
  end_line, end_line_if, put_char, place_word, split_word, wrap_word, wrap_words, wrap_paragraphs,
  words_of, or_blank, wrap,
}

abbrev pub keep_if : Bool → ℕ → Text → Text
keep_if true c cs = cs
keep_if false c cs = c ∷ cs

module _ (is_space : ℕ → Bool) where
  -- The characters that are no blanks.
  unfoldable pub letters : Text → Text
  letters [] = []
  letters (c ∷ cs) = keep_if (is_space c) c (letters cs)

  unfoldable pub letters_all : List Text → Text
  letters_all [] = []
  letters_all (l ∷ ls) = letters l ++ letters_all ls

  keep_if-append : (s : Bool) (c : ℕ) (a b : Text) → keep_if s c (a ++ b) ≡ keep_if s c a ++ b
  keep_if-append true c a b = refl
  keep_if-append false c a b = refl

  letters-append : (a b : Text) → letters (a ++ b) ≡ letters a ++ letters b
  unfolding letters
  letters-append [] b = refl
  letters-append (c ∷ cs) b =
      ap (λ t. keep_if (is_space c) c t) (letters-append cs b)
      ∙ keep_if-append (is_space c) c (letters cs) (letters b)

  letters_all-append : (a b : List Text) → letters_all (a ++ b) ≡ letters_all a ++ letters_all b
  unfolding letters_all
  letters_all-append [] b = refl
  letters_all-append (l ∷ ls) b =
      ap (λ t. letters l ++ t) (letters_all-append ls b)
      ∙ sym (append_assoc (letters l) (letters_all ls) (letters_all b))

  letters-snoc :
      (ls : List Text) (l : Text) → letters_all (ls ++ (l ∷ [])) ≡ letters_all ls ++ letters l
  unfolding letters_all
  letters-snoc ls l =
      letters_all-append ls (l ∷ []) ∙ ap (λ t. letters_all ls ++ t) (append-nil (letters l))

  -- What stands on the lines so far.
  abbrev inked : Wrapping → Text
  inked s = letters_all s.lines ++ letters s.current

  inked-new_line : (line : Text) (s : Wrapping) → inked (new_line line s) ≡ inked s ++ letters line
  inked-new_line line s = ap (λ t. t ++ letters line) (letters-snoc s.lines s.current)

  inked-more :
      (t : Text) (s : Wrapping)
      → inked (record s { current = s.current ++ t }) ≡ inked s ++ letters t
  inked-more t s =
      ap (λ u. letters_all s.lines ++ u) (letters-append s.current t)
      ∙ sym (append_assoc (letters_all s.lines) (letters s.current) (letters t))

  inked-put_char :
      (full : Bool) (ch : ℕ) (s : Wrapping)
      → inked (put_char full ch s) ≡ inked s ++ letters (ch ∷ [])
  inked-put_char true ch s = inked-new_line (ch ∷ []) s
  inked-put_char false ch s = inked-more (ch ∷ []) s

  inked-end_line_if : (b : Bool) (s : Wrapping) → inked (end_line_if b s) ≡ inked s
  unfolding letters
  inked-end_line_if true s = inked-new_line [] s ∙ append-nil (inked s)
  inked-end_line_if false s = refl

  inked-split_word :
      (fits : Text → Bool) (word : Text) (s : Wrapping)
      → inked (split_word fits word s) ≡ inked s ++ letters word
  unfolding split_word letters
  inked-split_word fits [] s = sym (append-nil (inked s))
  inked-split_word fits (ch ∷ word) s =
      let full = not (fits (s.current ++ (ch ∷ []))) && not (is_empty s.current) in
      inked-split_word fits word (put_char full ch s)
      ∙ ap (λ t. t ++ letters word) (inked-put_char full ch s)
      ∙ append_assoc (inked s) (letters (ch ∷ [])) (letters word)
      ∙ ap (λ t. inked s ++ t) (sym (letters-append (ch ∷ []) word))

  module _ (blank_space : is_space blank ≡ true) where
    letters-trial :
        (current word : Text) → letters (trial current word) ≡ letters current ++ letters word
    unfolding letters
    letters-trial [] word = refl
    letters-trial (c ∷ cs) word =
        letters-append (c ∷ cs) (blank ∷ word)
        ∙ ap (λ s. letters (c ∷ cs) ++ keep_if s blank (letters word)) blank_space

    inked-place_word :
        (fits : Text → Bool) (x y b : Bool) (word : Text) (s t : Wrapping)
        → place_word fits x y b word s ≡ some t
        → inked t ≡ inked s ++ letters word
    inked-place_word fits true y b word s t e =
        let f : t ≡ record s { current = trial s.current word } = cc in
        ap inked f
        ∙ ap (λ u. letters_all s.lines ++ u) (letters-trial s.current word)
        ∙ sym (append_assoc (letters_all s.lines) (letters s.current) (letters word))
    inked-place_word fits false true b word s t e =
        let f : t ≡ new_line word s = cc in ap inked f ∙ inked-new_line word s
    inked-place_word fits false false true word s t e =
        let f : t ≡ split_word fits word (end_line s) = cc in
        ap inked f
        ∙ inked-split_word fits word (end_line s)
        ∙ ap (λ u. u ++ letters word) (inked-end_line_if (not (is_empty s.current)) s)
    inked-place_word fits false false false word s t e = cc

    inked-wrap_words :
        (fits : Text → Bool) (b : Bool) (words : List Text) (s t : Wrapping)
        → wrap_words fits b words s ≡ some t
        → inked t ≡ inked s ++ letters_all words
    unfolding wrap_words wrap_word letters_all
    inked-wrap_words fits b [] s t e = let f : t ≡ s = cc in ap inked f ∙ sym (append-nil (inked s))
    inked-wrap_words fits b (word ∷ words) s t e =
        let (u, next, f) =
          (bind-eq-some_iff (wrap_word fits b word s)
              (λ (v : Wrapping). wrap_words fits b words v)).0
            e in
        inked-wrap_words fits b words u t f
        ∙ ap (λ v. v ++ letters_all words) (inked-place_word fits _ _ b word s u next)
        ∙ append_assoc (inked s) (letters word) (letters_all words)

    -- The letters of the paragraphs, given by their words.
    abbrev letters_of : List (List Text) → Text
    letters_of [] = []
    letters_of (words ∷ ps) = letters_all words ++ letters_of ps

    letters_all-wrap_paragraphs :
        (fits : Text → Bool) (b : Bool) (ps : List (List Text)) (before lines : List Text)
        → wrap_paragraphs fits b ps before ≡ some lines
        → letters_all lines ≡ letters_all before ++ letters_of ps
    unfolding wrap_paragraphs letters
    letters_all-wrap_paragraphs fits b [] before lines e =
        let f : lines ≡ before = cc in ap letters_all f ∙ sym (append-nil (letters_all before))
    letters_all-wrap_paragraphs fits b (words ∷ ps) before lines e =
        let start : Wrapping = record { lines = before; current = [] } in
        let (u, next, f) =
          (bind-eq-some_iff (wrap_words fits b words start)
              (λ (v : Wrapping). wrap_paragraphs fits b ps (v.lines ++ (v.current ∷ [])))).0
            e in
        letters_all-wrap_paragraphs fits b ps (u.lines ++ (u.current ∷ [])) lines f
        ∙ ap (λ t. t ++ letters_of ps)
            (letters-snoc u.lines u.current
              ∙ inked-wrap_words fits b words start u next
              ∙ ap (λ t. t ++ letters_all words) (append-nil (letters_all before)))
        ∙ append_assoc (letters_all before) (letters_all words) (letters_of ps)

  letters_all-unless_blank : (part : Text) → letters_all (unless_blank part) ≡ letters part
  unfolding letters letters_all
  letters_all-unless_blank [] = refl
  letters_all-unless_blank (c ∷ cs) = append-nil (letters (c ∷ cs))

  letters_all-words_from :
      (part text : Text)
      → letters_all (words_from is_space part text) ≡ letters part ++ letters text
  unfolding letters words_from
  letters_all-words_from part [] = letters_all-unless_blank part ∙ sym (append-nil (letters part))
  letters_all-words_from part (c ∷ cs) = elim (Bool-cases (is_space c)) [
    | inl space ↦ rw space (
        letters_all-append (unless_blank part) (words_from is_space [] cs)
        ∙ ap (λ t. t ++ letters_all (words_from is_space [] cs)) (letters_all-unless_blank part)
        ∙ ap (λ t. letters part ++ t) (letters_all-words_from [] cs))
    | inr letter ↦
        let one : letters (c ∷ []) ≡ c ∷ [] = ap (λ s. keep_if s c []) letter in
        rw letter (
          letters_all-words_from (part ++ (c ∷ [])) cs
          ∙ ap (λ t. t ++ letters cs) (letters-append part (c ∷ []))
          ∙ append_assoc (letters part) (letters (c ∷ [])) (letters cs)
          ∙ ap (λ t. letters part ++ (t ++ letters cs)) one)
  ]

  letters_all-split_at :
      (sep : ℕ → Bool) (part text : Text)
      → ((c : ℕ) → sep c ≡ true → is_space c ≡ true)
      → letters_all (split_at sep part text) ≡ letters part ++ letters text
  unfolding letters letters_all split_at
  letters_all-split_at sep part [] spaces = refl
  letters_all-split_at sep part (c ∷ cs) spaces = elim (Bool-cases (sep c)) [
    | inl ends ↦
        let skip : keep_if (is_space c) c (letters cs) ≡ letters cs =
          ap (λ s. keep_if s c (letters cs)) (spaces c ends) in
        rw ends (ap (λ t. letters part ++ t) (letters_all-split_at sep [] cs spaces ∙ sym skip))
    | inr inside ↦ rw inside (
        letters_all-split_at sep (part ++ (c ∷ [])) cs spaces
        ∙ ap (λ t. t ++ letters cs) (letters-append part (c ∷ []))
        ∙ append_assoc (letters part) (letters (c ∷ [])) (letters cs)
        ∙ ap (λ t. letters part ++ t) (sym (letters-append (c ∷ []) cs)))
  ]

  letters_of-words_of :
      (blank_space : is_space blank ≡ true) (ps : List Text)
      → letters_of blank_space (words_of is_space ps) ≡ letters_all ps
  unfolding words_of letters letters_all
  letters_of-words_of h [] = refl
  letters_of-words_of h (p ∷ ps) =
      ap (λ t. t ++ letters_of h (words_of is_space ps)) (letters_all-words_from [] p)
      ∙ ap (λ t. letters p ++ t) (letters_of-words_of h ps)

  letters_all-or_blank : (ls : List Text) → letters_all (or_blank ls) ≡ letters_all ls
  unfolding letters letters_all
  letters_all-or_blank [] = refl
  letters_all-or_blank (l ∷ ls) = refl

pub letters_all-wrap :
    (is_space : ℕ → Bool) (fits : Text → Bool) (b : Bool) (text : Text) (lines : List Text)
    → is_space blank ≡ true
    → is_space newline ≡ true
    → wrap is_space fits b text ≡ some lines
    → letters_all is_space lines ≡ letters is_space text
unfolding wrap letters letters_all
letters_all-wrap is_space fits b text lines blank_space line_space e =
    let split = split_at (λ c. c == newline) [] text in
    let ps = words_of is_space split in
    let (ls, made, f) =
      (bind-eq-some_iff (wrap_paragraphs fits b ps []) (λ (ls : List Text). some (or_blank ls))).0
        e in
    let g : lines ≡ or_blank ls = cc in
    ap (letters_all is_space) g
    ∙ letters_all-or_blank is_space ls
    ∙ letters_all-wrap_paragraphs is_space blank_space fits b ps [] ls made
    ∙ letters_of-words_of is_space blank_space split
    ∙ letters_all-split_at is_space (λ c. c == newline) [] text
        (λ c h. ap is_space (==→eq c newline h) ∙ line_space)
