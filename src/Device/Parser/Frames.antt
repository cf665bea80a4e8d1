-- ===== src/Device/Parser/Frames.antt =====
-- `StatusParser.feed` of src/labelfab/device/responses.py, on the bytes of whole messages.
use labelfab.Common.{
  ℕ, suc, ◌≤◌, ◌≡◌, ◌≢◌, ◌∙◌, refl, sym, ap, subst, false, List, [], ◌∷◌, ◌++◌, none, some, map,
  All, length, length-append, take-length, drop-length, arith, Dict, ok,
}
use labelfab.Device.Protocol.{Bytes}
use labelfab.Device.Tags.{
  status_prefix, TagSpec, PayloadLength, length_prefixed, fixed, undecoded, spec_of,
}
use labelfab.Device.Tags.Table.{spec_of-fits, decode-ne-none}
use labelfab.Device.Parser.{StatusFrame, StatusParser, frame_of, whole, scan, feed}
use labelfab.Device.Parser.Parses.{frame, Parses, stop, hit, scan-nil}
use labelfab.Device.Parser.Chunks.{lenient, item_frames, count_items, feed-Parses}

-- What the printer reports: a tag of the table, and a payload.
pub record Message : Type 0 where
  pub tag : ℕ
  pub spec : TagSpec
  pub payload : Bytes

abbrev payload_bytes : PayloadLength → Bytes → Bytes
payload_bytes length_prefixed payload = length payload ∷ payload
payload_bytes (fixed n) payload = payload

abbrev LengthFits : PayloadLength → Bytes → Type 0
LengthFits length_prefixed payload = length payload ≤ 255
LengthFits (fixed n) payload = length payload ≡ n

pub record IsMessage (m : Message) : Type 0 where
  pub known : spec_of m.tag ≡ some m.spec
  pub sized : LengthFits m.spec.length m.payload

-- The bytes of a message.
abbrev pub wire : Message → Bytes
wire m = status_prefix ∷ m.tag ∷ payload_bytes m.spec.length m.payload

abbrev pub wires : List Message → Bytes
wires [] = []
wires (m ∷ ms) = wire m ++ wires ms

abbrev pub message_frame : Message → StatusFrame
message_frame m = frame_of m.tag m.spec m.payload

scan-payload :
    (m : Message) (l : PayloadLength) (rest : Bytes)
    → m.spec.length ≡ l
    → spec_of m.tag ≡ some m.spec
    → LengthFits l m.payload
    → scan (status_prefix ∷ m.tag ∷ (payload_bytes l m.payload ++ rest))
      ≡ whole (message_frame m) (suc (suc (length (payload_bytes l m.payload))))
unfolding scan
scan-payload m length_prefixed rest e k h =
    ground (arith, take-length {0} m.payload rest, length-append {0} m.payload rest)
scan-payload m (fixed n) rest e k h =
    ground (arith, take-length {0} m.payload rest, length-append {0} m.payload rest)

wires-Parses :
    (ms : List Message)
    → All IsMessage ms
    → Parses (wires ms) (map (λ m. frame (message_frame m)) ms) []
wires-Parses [] h = stop scan-nil
wires-Parses (m ∷ ms) h =
    hit (message_frame m) (length (wire m))
      (scan-payload m m.spec.length (wires ms) refl h.0.known h.0.sized)
      (subst (λ b. Parses b (map (λ m. frame (message_frame m)) ms) [])
        (sym (drop-length (wire m) (wires ms))) (wires-Parses ms h.1))

item_frames-map :
    (ms : List Message) → item_frames (map (λ m. frame (message_frame m)) ms) ≡ map message_frame ms
item_frames-map [] = refl
item_frames-map (m ∷ ms) = ap (λ fs. message_frame m ∷ fs) (item_frames-map ms)

count_items-map :
    (ms : List Message) (u : Dict ℕ ℕ) → count_items (map (λ m. frame (message_frame m)) ms) u ≡ u
count_items-map [] u = refl
count_items-map (m ∷ ms) u = count_items-map ms u

-- Fed the bytes of any messages of the table, with nothing held back before, a parser that skips
-- unknown tags returns exactly their frames, in order, and is left as it was.
pub feed-wires :
    (p : StatusParser) (ms : List Message)
    → p.strict ≡ false
    → p.buf ≡ []
    → All IsMessage ms
    → feed p (wires ms) ≡ ok (map message_frame ms, p)
feed-wires p ms strict fresh h =
    feed-Parses p (wires ms) strict (
      subst (λ b. Parses (b ++ wires ms) (map (λ m. frame (message_frame m)) ms) []) (sym fresh)
        (wires-Parses ms h))
    ∙ cc (item_frames-map ms, count_items-map ms p.unknown_tags, restored)
  where
    restored : lenient p.unknown_tags [] ≡ p
    restored =
        λ i. record { strict = sym strict i; buf = sym fresh i; unknown_tags = p.unknown_tags }

-- The decoder of a message's tag does not fail on its payload.
pub decode-message :
    (m : Message) → IsMessage m → m.spec.decode ≢ undecoded → (message_frame m).value ≢ none
decode-message m h k =
    decode-ne-none m.spec.decode m.spec.length m.payload (spec_of-fits m.tag m.spec h.known)
      (λ n e. let fit : LengthFits (fixed n) m.payload = rw e at (h.sized) in fit) k
