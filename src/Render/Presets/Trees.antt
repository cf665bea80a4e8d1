-- ===== src/Render/Presets/Trees.antt =====
-- When the presets of src/labelfab/render/presets.py build a tree, and what stands in it.
use labelfab.Common.{
  ℕ, ◌≡◌, ◌≤◌, ◌↔◌, arith, List, [], ◌∷◌, ◌++◌, String, Dict, length, Result, ok, refl, >>=-eq-ok,
}
use labelfab.Contract.Elements.{
  ValidationError, QrElement, Element, qr, text, Node, Nodes, leaf, box, nil, cons, Box, qr_element,
  text_element, box_of,
}
use labelfab.Render.Text.{Text}
use labelfab.Render.Vertical.Stock.{first_of}
use labelfab.Render.Presets.{
  PresetContext, payload, code_element, title_element, sub_element, column_style, row_style, two,
  box_node, captions, qr_caption, location,
}

-- The elements of a tree, from left to right and from top to bottom.
mutual
  pub leaves : Node → List Element
  leaves (leaf e) = e ∷ []
  leaves (box style ns) = leaves_of ns

  pub leaves_of : Nodes → List Element
  leaves_of nil = []
  leaves_of (cons n ns) = leaves n ++ leaves_of ns

-- What a label with a code must have: a payload, and texts that are not too long.
abbrev pub IsComplete : Dict String Text → PresetContext → Type 0
IsComplete v ctx =
    (1 ≤ length (payload v ctx))
    × (length (payload v ctx) ≤ 1024)
    × (1 ≤ ctx.qr_quiet_zone)
    × (ctx.qr_quiet_zone ≤ 8)
    × (length (first_of v ("title" ∷ [])) ≤ 512)
    × (length (first_of v ("sub" ∷ [])) ≤ 512)

-- The tree that a preset builds.
abbrev pub Builds : List Element → Result ValidationError Box → Type 0
Builds es r = (b : Box) × (r ≡ ok b) × (leaves_of b.children ≡ es)

abbrev IsQr : QrElement → Type 0
IsQr e = (1 ≤ length e.value) × (length e.value ≤ 1024) × (1 ≤ e.quiet_zone) × (e.quiet_zone ≤ 8)

qr_element-ok : (e : QrElement) → IsQr e → qr_element e ≡ ok e
unfolding qr_element
qr_element-ok e h = ground arith

qr_element-IsQr : (e f : QrElement) → qr_element e ≡ ok f → IsQr e
unfolding qr_element
qr_element-IsQr e f h = ground arith

captions-ok :
    (v : Dict String Text) (m n : ℕ)
    → 1 ≤ m
    → m ≤ 6
    → 1 ≤ n
    → n ≤ 6
    → length (first_of v ("title" ∷ [])) ≤ 512
    → length (first_of v ("sub" ∷ [])) ≤ 512
    → captions v m n
      ≡ ok (record {
        style = column_style;
        children = two (leaf (text (title_element v m))) (leaf (text (sub_element v n)));
      })
unfolding text_element box_of
captions-ok v m n a b c d short_title short_sub = ground arith

captions-short :
    (v : Dict String Text) (m n : ℕ) (b : Box)
    → captions v m n ≡ ok b
    → (length (first_of v ("title" ∷ [])) ≤ 512) × (length (first_of v ("sub" ∷ [])) ≤ 512)
unfolding text_element box_of
captions-short v m n b h = ground arith

row_box-ok :
    (a b : Node)
    → box_of row_style (two a b) ≡ ok (record { style = row_style; children = two a b })
unfolding box_of
row_box-ok a b = refl

module _ (v : Dict String Text) (ctx : PresetContext) where
  abbrev code_leaf : Node
  code_leaf = leaf (qr (code_element v ctx))

  abbrev texts : ℕ → ℕ → Box
  texts m n = record {
    style = column_style;
    children = two (leaf (text (title_element v m))) (leaf (text (sub_element v n)));
  }

  abbrev row_of : Node → Node → Box
  row_of a b = record { style = row_style; children = two a b }

  qr_caption-ok : IsComplete v ctx → qr_caption v ctx ≡ ok (row_of code_leaf (box_node (texts 2 1)))
  unfolding qr_caption
  qr_caption-ok (some_code, short_code, some_zone, small_zone, short_title, short_sub) =
      rw
        (
          qr_element-ok (code_element v ctx) (some_code, short_code, some_zone, small_zone),
          captions-ok v 2 1 (omega arith) (omega arith) (omega arith) (omega arith) short_title
              short_sub,
        )
        (row_box-ok code_leaf (box_node (texts 2 1)))

  location-ok : IsComplete v ctx → location v ctx ≡ ok (row_of (box_node (texts 1 2)) code_leaf)
  unfolding location
  location-ok (some_code, short_code, some_zone, small_zone, short_title, short_sub) =
      rw
        (
          captions-ok v 1 2 (omega arith) (omega arith) (omega arith) (omega arith) short_title
              short_sub,
          qr_element-ok (code_element v ctx) (some_code, short_code, some_zone, small_zone),
        )
        (row_box-ok (box_node (texts 1 2)) code_leaf)

  complete :
      (code : QrElement) (m n : ℕ) (b : Box)
      → qr_element (code_element v ctx) ≡ ok code
      → captions v m n ≡ ok b
      → IsComplete v ctx
  complete code m n b coded written =
      let (some_code, short_code, some_zone, small_zone) =
        qr_element-IsQr (code_element v ctx) code coded in
      let (short_title, short_sub) = captions-short v m n b written in
      (some_code, short_code, some_zone, small_zone, short_title, short_sub)

  qr_caption-IsComplete : (b : Box) → qr_caption v ctx ≡ ok b → IsComplete v ctx
  unfolding qr_caption
  qr_caption-IsComplete b built =
      let (code, coded, rest) = >>=-eq-ok (qr_element (code_element v ctx)) _ built in
      let (column, written, _) = >>=-eq-ok (captions v 2 1) _ rest in
      complete code 2 1 column coded written

  location-IsComplete : (b : Box) → location v ctx ≡ ok b → IsComplete v ctx
  unfolding location
  location-IsComplete b built =
      let (column, written, rest) = >>=-eq-ok (captions v 1 2) _ built in
      let (code, coded, _) = >>=-eq-ok (qr_element (code_element v ctx)) _ rest in
      complete code 1 2 column coded written

-- A preset with a code builds its tree exactly when the payload of the code has 1 to 1024 characters,
-- the quiet zone is 1 to 8 modules wide and title and second line have at most 512 characters; the
-- tree then has the code before the two texts, or behind them for a location.
pub presets-build_iff :
    (v : Dict String Text) (ctx : PresetContext)
    → (IsComplete v ctx
        ↔ Builds
            (qr (code_element v ctx) ∷ text (title_element v 2) ∷ text (sub_element v 1) ∷ [])
            (qr_caption v ctx))
      × (IsComplete v ctx
          ↔ Builds
              (text (title_element v 1) ∷ text (sub_element v 2) ∷ qr (code_element v ctx) ∷ [])
              (location v ctx))
unfolding leaves
presets-build_iff v ctx = (
  (
    (λ h.
        (row_of v ctx (code_leaf v ctx) (box_node (texts v ctx 2 1)), qr_caption-ok v ctx h, refl)),
    (λ built. qr_caption-IsComplete v ctx built.0 built.1),
  ),
  (
    (λ h. (row_of v ctx (box_node (texts v ctx 1 2)) (code_leaf v ctx), location-ok v ctx h, refl)),
    (λ built. location-IsComplete v ctx built.0 built.1),
  ),
)
