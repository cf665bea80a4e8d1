-- ===== src/Render/Presets.antt =====
-- src/labelfab/render/presets.py: the named layouts, as functions from the variables of a label to the
-- tree of its elements. What pydantic refuses is an error. The search for the first key with a text,
-- `_g`, and `qr_value` stand with the vertical labels, which have them too.
pub mod Trees
use labelfab.Common.{
  ℕ, true, false, List, [], ◌∷◌, Option, String, Result, ok, ◌>>=◌, ◌>>◌, Dict, dict_get, string_eq,
}
use labelfab.Contract.Elements.{
  ValidationError, QrElement, TextElement, BoxStyle, Box, Node, Nodes, leaf, box, nil, cons, qr,
  text, Correction, TextAlign, qr_element, text_element, box_of, plain_text, plain_box,
}
use labelfab.Render.Text.{Text}
use labelfab.Render.Layout.{row, col, start}
use labelfab.Render.Vertical.Stock.{first_of, qr_value}

pub record PresetContext : Type 0 where
  pub qr_base_url : Text
  pub qr_quiet_zone : ℕ

abbrev pub PresetFn : Type 0
PresetFn = Dict String Text → PresetContext → Result ValidationError Box

abbrev pub title_max_pt : ℕ
title_max_pt = 1600

abbrev pub sub_max_pt : ℕ
sub_max_pt = 800

-- `ctx.qr_value(_g(v, "code", "pk"))`
abbrev pub payload : Dict String Text → PresetContext → Text
payload v ctx = qr_value ctx.qr_base_url (first_of v ("code" ∷ "pk" ∷ []))

abbrev pub code_element : Dict String Text → PresetContext → QrElement
code_element v ctx = record {
  value = payload v ctx;
  ec = Correction.medium;
  quiet_zone = ctx.qr_quiet_zone;
  flex = 0;
}

abbrev pub title_element : Dict String Text → ℕ → TextElement
title_element v max_lines = record (plain_text (first_of v ("title" ∷ []))) {
  max_lines = max_lines;
  bold = true;
  max_pt = title_max_pt;
  flex = 200;
}

abbrev pub sub_element : Dict String Text → ℕ → TextElement
sub_element v max_lines = record (plain_text (first_of v ("sub" ∷ []))) {
  max_lines = max_lines;
  condensed = true;
  max_pt = sub_max_pt;
  flex = 100;
}

-- The column of the texts, and the row of the label.
abbrev pub column_style : BoxStyle
column_style = record (plain_box col) { align = start; gap_mm = 30450; padding_mm = 0 }

abbrev pub row_style : BoxStyle
row_style = record (plain_box row) { gap_mm = 101500 }

abbrev pub two : Node → Node → Nodes
two a b = cons a (cons b nil)

abbrev pub box_node : Box → Node
box_node b = box b.style b.children

-- The title over the second line.
abbrev pub captions : Dict String Text → ℕ → ℕ → Result ValidationError Box
captions v title_lines sub_lines = text_element (title_element v title_lines) >>= λ title.
    text_element (sub_element v sub_lines) >>= λ sub.
    box_of column_style (two (leaf (text title)) (leaf (text sub)))

unfoldable pub qr_caption : PresetFn
unfolding qr_element text_element box_of
qr_caption v ctx = qr_element (code_element v ctx) >>= λ code.
    captions v 2 1 >>= λ texts. box_of row_style (two (leaf (qr code)) (box_node texts))

abbrev pub stock_item : PresetFn
stock_item v ctx = qr_caption v ctx

abbrev pub part : PresetFn
part v ctx = qr_caption v ctx

unfoldable pub location : PresetFn
unfolding qr_element text_element box_of
location v ctx = captions v 1 2 >>= λ texts. qr_element (code_element v ctx) >>= λ code.
    box_of row_style (two (box_node texts) (leaf (qr code)))

unfoldable pub text_only : PresetFn
unfolding text_element box_of
text_only v ctx =
    text_element
      (record (plain_text (first_of v ("title" ∷ []))) { bold = true; align = TextAlign.middle })
    >>= λ title. box_of (record (plain_box col) { gap_mm = 30450 }) (cons (leaf (text title)) nil)

abbrev pub presets : Dict String PresetFn
presets =
    ("qr_caption", qr_caption)
    ∷ ("stock_item", stock_item)
    ∷ ("part", part)
    ∷ ("location", location)
    ∷ ("text_only", text_only)
    ∷ []

-- `get`: none is `UnknownPreset`.
unfoldable pub get : String → Option PresetFn
get name = dict_get name presets
