-- ===== src/Render/Vertical/Stock.antt =====
-- `VerticalStockItem` and `stock_item_vertical` of src/labelfab/render/vertical.py.
pub mod Stacks
use labelfab.Common.{
  ℕ, zero, suc, ◌+◌, ◌-◌, ◌*◌, ◌/◌, min, max, Bool, true, false, not, ◌&&◌, List, [], ◌∷◌, ◌++◌,
  Option, none, some, ◌==◌, if◌then◌else◌, Result, ok, err, ◌>>=◌, String, Dict, dict_get,
  string_eq,
}
use labelfab.Render.Layout.{Rect}
use labelfab.Render.Text.{Text, is_empty}
use labelfab.Render.Vertical.{
  side_pad_px, line_gap_px, QrError, Module, round_div, scaled_qr, Faces, Line, fit_line,
}

-- `pt_to_px`, of whole points
abbrev pub pt_to_px : ℕ → ℕ
pt_to_px pt = max 1 (round_div (pt * 203) 72)

pub record StockItem : Type 0 where
  pub qr_payload : Text
  pub inv : Text
  pub ipn : Text
  pub description : Text
  pub quiet_zone : ℕ

-- `if text: ... lines.append(line)`
abbrev pub line_unless : Bool → Line → List Line
line_unless true l = []
line_unless false l = l ∷ []

-- `self.description.splitlines()[0]`, a line ending at a break.
unfoldable pub first_line : (ℕ → Bool) → Text → Text
first_line is_break [] = []
first_line is_break (c ∷ cs) =
    let rest = first_line is_break cs in if is_break c then [] else c ∷ rest

-- `text.strip()` has a character
unfoldable pub has_ink : (ℕ → Bool) → Text → Bool
has_ink is_space [] = false
has_ink is_space (c ∷ cs) = if is_space c then has_ink is_space cs else true

module _ (faces : Faces) (is_break : ℕ → Bool) where
  -- `_lines`
  unfoldable pub lines : StockItem → ℕ → List Line
  unfolding fit_line round_div first_line has_ink
  lines item width =
      let text_w = max 1 (width - 2 * side_pad_px) in
      let first =
        if has_ink faces.is_space item.description
        then first_line is_break item.description
        else [] in
      line_unless (is_empty item.inv)
        (fit_line faces item.inv true false text_w (pt_to_px 5) (pt_to_px 11))
      ++ (line_unless (is_empty item.ipn)
            (fit_line faces item.ipn false false text_w (pt_to_px 5) (pt_to_px 9))
          ++ line_unless (is_empty item.description)
              (fit_line faces first false true text_w (pt_to_px 5) (pt_to_px 5)))

  abbrev pub height_of : Line → ℕ
  height_of l = faces.ink_height l.bold l.condensed l.size

  unfoldable pub stack_height : List Line → ℕ
  stack_height [] = 0
  stack_height (l ∷ ls) = line_gap_px + height_of l + stack_height ls

  -- `measure`
  unfoldable pub measure : StockItem → ℕ → ℕ → ℕ × ℕ
  unfolding lines stack_height
  measure item avail_w avail_h =
      (avail_w, min avail_h (avail_w + stack_height (lines item avail_w)))

  -- The ink of each line: its top row and its height.
  unfoldable pub stack : ℕ → List Line → List (ℕ × ℕ)
  stack y [] = []
  stack y (l ∷ ls) = (y + line_gap_px, height_of l) ∷ stack (y + line_gap_px + height_of l) ls

  -- `draw`: the modules of the code, from its corner, and the ink of the lines. The matrix is that of
  -- the payload.
  unfoldable pub draw :
      List (List Bool) → StockItem → Rect → Result QrError (List Module × List (ℕ × ℕ))
  unfolding scaled_qr lines stack
  draw matrix item box = scaled_qr matrix box.w item.quiet_zone >>= λ modules.
      ok (modules, stack (box.y + box.w) (lines item box.w))

-- `_first`: the first of the keys with a text, else the empty text.
unfoldable pub first_of : Dict String Text → List String → Text
first_of v [] = []
first_of v (k ∷ ks) = non_empty (dict_get k v) (first_of v ks)
  where
    non_empty : Option Text → Text → Text
    non_empty none rest = rest
    non_empty (some []) rest = rest
    non_empty (some (c ∷ cs)) rest = c ∷ cs

abbrev pub or_text : Text → Text → Text
or_text [] other = other
or_text (c ∷ cs) other = c ∷ cs

-- `·`
abbrev pub middle_dot : ℕ
middle_dot = 183

-- `text.partition("·")`, without the separator
unfoldable pub partition : Text → Text × Text
partition [] = ([], [])
partition (c ∷ cs) =
    let (head, tail) = partition cs in if c == middle_dot then ([], cs) else (c ∷ head, tail)

abbrev pub qr_value : Text → Text → Text
qr_value [] code = code
qr_value (c ∷ base) code = (c ∷ base) ++ code

-- `stock_item_vertical`, with `str.strip` as a parameter
unfoldable pub stock_item_vertical : (Text → Text) → Text → ℕ → Dict String Text → StockItem
unfolding first_of partition
stock_item_vertical strip qr_base_url quiet v =
    let code = first_of v ("code" ∷ "pk" ∷ []) in
    let given = first_of v ("inv" ∷ []) in
    let (head, tail) = partition (first_of v ("title" ∷ [])) in
    let ipn = first_of v ("ipn" ∷ []) in
    let from_title = is_empty given in
    let inv = if from_title then strip head else given in
    record {
      qr_payload = qr_value qr_base_url code;
      inv = or_text inv code;
      ipn = if from_title then or_text ipn (strip tail) else ipn;
      description = strip (first_of v ("description" ∷ "sub" ∷ []));
      quiet_zone = quiet;
    }
