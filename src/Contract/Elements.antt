-- ===== src/Contract/Elements.antt =====
-- src/labelfab/contract/models.py: the elements of a layout and the box. A constructor that pydantic
-- checks is a function that may raise `ValidationError`; a size in points and a weight are in
-- hundredths, a length in the units of `Contract`, a text is its code points.
use labelfab.Common.{ℕ, Bool, true, false, ◌&&◌, length, leb, Result, ok, guard, ◌>>◌}
use labelfab.Render.Text.{Text}
use labelfab.Render.Layout.{Direction, Align}

pub data ValidationError : Type 0 where
  invalid : ValidationError

pub data Correction : Type 0 where
  low medium quartile high : Correction

pub record QrElement : Type 0 where
  pub value : Text
  pub ec : Correction
  pub quiet_zone : ℕ
  pub flex : ℕ

pub data Symbology : Type 0 where
  code128 code39 ean13 : Symbology

pub record BarcodeElement : Type 0 where
  pub value : Text
  pub symbology : Symbology
  pub module_width_mm : ℕ
  pub hri : Bool
  pub flex : ℕ

pub data TextAlign : Type 0 where
  left middle right : TextAlign

pub record TextElement : Type 0 where
  pub value : Text
  pub max_lines : ℕ
  pub bold : Bool
  pub condensed : Bool
  pub align : TextAlign
  pub min_pt : ℕ
  pub max_pt : ℕ
  pub flex : ℕ

pub data FitMode : Type 0 where
  contain cover squeeze : FitMode

pub record RawPngElement : Type 0 where
  pub payload : Text
  pub fit : FitMode
  pub dither : Bool
  pub flex : ℕ

pub data Element : Type 0 where
  qr : QrElement → Element
  barcode : BarcodeElement → Element
  text : TextElement → Element
  raw_png : RawPngElement → Element

-- The fields of a box beside its children.
pub record BoxStyle : Type 0 where
  pub direction : Direction
  pub gap_mm : ℕ
  pub padding_mm : ℕ
  pub align : Align
  pub flex : ℕ

mutual
  pub data Node : Type 0 where
    leaf : Element → Node
    box : BoxStyle → Nodes → Node

  pub data Nodes : Type 0 where
    nil : Nodes
    cons : Node → Nodes → Nodes

pub record Box : Type 0 where
  pub style : BoxStyle
  pub children : Nodes

abbrev pub within : ℕ → ℕ → ℕ → Bool
within lo hi n = leb lo n && leb n hi

-- `QrElement(…)`
unfoldable pub qr_element : QrElement → Result ValidationError QrElement
qr_element e = do
  guard (within 1 1024 (length e.value)) invalid
  guard (within 1 8 e.quiet_zone) invalid
  ok e

-- `TextElement(…)`, with `_pt_range_ordered`
unfoldable pub text_element : TextElement → Result ValidationError TextElement
text_element e = do
  guard (leb (length e.value) 512) invalid
  guard (within 1 6 e.max_lines) invalid
  guard (within 300 4800 e.min_pt) invalid
  guard (within 300 4800 e.max_pt) invalid
  guard (leb e.min_pt e.max_pt) invalid
  ok e

abbrev pub has_nodes : Nodes → Bool
has_nodes nil = false
has_nodes (cons n ns) = true

-- `Box(…)`: a box has a child.
unfoldable pub box_of : BoxStyle → Nodes → Result ValidationError Box
box_of style children = do
  guard (has_nodes children) invalid
  guard (leb style.gap_mm 1015000) invalid
  guard (leb style.padding_mm 1015000) invalid
  ok (record { style = style; children = children })

-- The values that a constructor leaves out.
abbrev pub plain_text : Text → TextElement
plain_text value = record {
  value = value;
  max_lines = 2;
  bold = false;
  condensed = false;
  align = left;
  min_pt = 500;
  max_pt = 2800;
  flex = 100;
}

abbrev pub plain_box : Direction → BoxStyle
plain_box direction = record {
  direction = direction;
  gap_mm = 60900;
  padding_mm = 50750;
  align = Align.center;
  flex = 100;
}
