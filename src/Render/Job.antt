-- ===== src/Render/Job.antt =====
-- src/labelfab/render/__init__.py: which layout a label gets, and the pictures of a job. The layout of
-- a label, which `Contract.LabelSpec` keeps as a text, is its preset with variables or its elements.
pub mod Heights
pub mod Strips
use labelfab.Common.{
  ℕ, Bool, true, false, List, [], ◌∷◌, ◌++◌, Option, none, some, String, Result, ok, err, ◌>>=◌,
  Dict, dict_get, string_eq, replicate, if◌then◌else◌,
}
use labelfab.Contract.{TapeSpec, LengthMm, auto, pinned}
use labelfab.Contract.Elements.{
  Box, Node, Nodes, leaf, box, nil, cons, ValidationError, box_of, plain_box,
}
use labelfab.Render.Text.{Text}
use labelfab.Render.Layout.{row}
use labelfab.Render.Compose.{
  RenderError, unknown_preset, Drawable, Picture, compose, compose_portrait,
}
use labelfab.Render.Presets.{PresetContext, PresetFn, get}
use labelfab.Render.Vertical.Stock.{StockItem, stock_item_vertical}

-- `RenderConfig`, as far as a label is concerned.
pub record RenderConfig : Type 0 where
  pub qr_base_url : Text
  pub qr_quiet_zone : ℕ
  pub preset_aliases : Dict String String
  pub vertical_flip : Bool

pub record LabelLayout : Type 0 where
  pub preset : Option String
  pub vars : Dict String Text
  pub elements : Option Nodes
  pub copies : ℕ
  pub length_mm : LengthMm

-- What a rendering raises: `RenderError` or pydantic's `ValidationError`.
pub data Fault : Type 0 where
  unrenderable : RenderError → Fault
  invalid_tree : ValidationError → Fault

abbrev pub rendering {ℓ} : {A : Type ℓ} → Result RenderError A → Result Fault A
rendering (ok a) = ok a
rendering (err e) = err (unrenderable e)

abbrev pub building {ℓ} : {A : Type ℓ} → Result ValidationError A → Result Fault A
building (ok a) = ok a
building (err e) = err (invalid_tree e)

abbrev pub renamed : Option String → String → String
renamed none name = name
renamed (some other) name = other

abbrev pub preset_name : Option String → RenderConfig → Option String
preset_name none cfg = none
preset_name (some name) cfg = some (renamed (dict_get name cfg.preset_aliases) name)

-- `_preset`
unfoldable pub preset : LabelLayout → RenderConfig → Option String
preset label cfg = preset_name label.preset cfg

-- `_context`
abbrev pub context : RenderConfig → PresetContext
context cfg = record { qr_base_url = cfg.qr_base_url; qr_quiet_zone = cfg.qr_quiet_zone }

abbrev pub preset_tree : Option PresetFn → LabelLayout → RenderConfig → Result Fault Box
preset_tree none label cfg = err (unrenderable unknown_preset)
preset_tree (some f) label cfg = building (f label.vars (context cfg))

-- `list(label.elements or [])`, a lone box as it is, anything else in a row.
abbrev pub elements_tree : Option Nodes → Result Fault Box
elements_tree (some (cons (box style children) nil)) =
    ok (record { style = style; children = children })
elements_tree (some ns) = building (box_of (plain_box row) ns)
elements_tree none = building (box_of (plain_box row) nil)

abbrev pub named_tree : Option String → LabelLayout → RenderConfig → Result Fault Box
named_tree none label cfg = elements_tree label.elements
named_tree (some name) label cfg = preset_tree (get name) label cfg

-- `_tree`
unfoldable pub tree : LabelLayout → RenderConfig → Result Fault Box
unfolding preset
tree label cfg = named_tree (preset label cfg) label cfg

abbrev pub or_tape : LengthMm → LengthMm → LengthMm
or_tape auto tape = tape
or_tape (pinned l) tape = pinned l

-- `name in _vertical.PRESETS`
abbrev pub is_vertical : Option String → Bool
is_vertical none = false
is_vertical (some name) = string_eq.beq name "stock_item_vertical"

-- What turns a tree, or a vertical label, into a drawable, and `str.strip`.
pub record Factory {ℓ} (Ink : Type ℓ) : Type ℓ where
  pub build : Box → Drawable Ink
  pub vertical : StockItem → Drawable Ink
  pub strip : Text → Text

module _ {ℓ} {Ink : Type ℓ} (factory : Factory Ink) where
  abbrev pub render_vertical : LabelLayout → TapeSpec → RenderConfig → Result Fault (Picture Ink)
  render_vertical label tape cfg =
      let item = stock_item_vertical factory.strip cfg.qr_base_url cfg.qr_quiet_zone label.vars in
      rendering (compose_portrait (factory.vertical item) tape label.length_mm cfg.vertical_flip)

  abbrev pub render_tree : LabelLayout → TapeSpec → RenderConfig → Result Fault (Picture Ink)
  render_tree label tape cfg = tree label cfg >>= λ b.
      rendering (compose (factory.build b) tape (or_tape label.length_mm tape.length_mm))

  unfoldable pub render_label : LabelLayout → TapeSpec → RenderConfig → Result Fault (Picture Ink)
  unfolding preset
  render_label label tape cfg =
      if is_vertical (preset label cfg)
      then render_vertical label tape cfg
      else render_tree label tape cfg

  -- `render_job`: the labels in order, the copies of a label next to each other.
  unfoldable pub render_job :
      List LabelLayout → TapeSpec → RenderConfig → Result Fault (List (Picture Ink))
  unfolding render_label
  render_job [] tape cfg = ok []
  render_job (label ∷ labels) tape cfg = render_label label tape cfg >>= λ picture.
      render_job labels tape cfg >>= λ pictures. ok (replicate label.copies picture ++ pictures)
