-- ===== src/Device/Parser.antt =====
-- src/labelfab/device/responses.py: `StatusParser`, the incremental decoder of status frames.
pub mod Scans
pub mod Parses
pub mod Chunks
pub mod Frames
pub mod Pending
use labelfab.Common.{
  ℕ, zero, suc, ◌+◌, Bool, true, false, ◌||◌, List, [], ◌∷◌, ◌++◌, Option, none, some, String, Dict,
  dict_get, dict_set, nat_eq, length, take, drop, ltb, ◌==◌, if◌then◌else◌, Result, ok, err,
}
use labelfab.Device.Protocol.{Bytes}
use labelfab.Device.Tags.{
  status_prefix, alt_prefix, Value, TagSpec, PayloadLength, length_prefixed, fixed, decode, spec_of,
}

pub record StatusFrame : Type 0 where
  pub tag : ℕ
  pub name : String
  pub raw : Bytes
  pub value : Option Value

pub record StatusParser : Type 0 where
  pub strict : Bool
  pub buf : Bytes
  pub unknown_tags : Dict ℕ ℕ

unfoldable pub new_parser : StatusParser
new_parser = record { strict = false; buf = []; unknown_tags = [] }

abbrev pub is_prefix : ℕ → Bool
is_prefix b = b == status_prefix || b == alt_prefix

-- `_find_prefix(buf, start)`: the index of the first prefix in `xs`, which begins at index `i`.
unfoldable pub find_prefix : Bytes → ℕ → Option ℕ
find_prefix [] i = none
find_prefix (b ∷ bs) i = if is_prefix b then some i else find_prefix bs (suc i)

-- What one look at the buffer finds: too few bytes, `n` bytes to drop, an unknown tag, or a frame
-- that ends after `n` bytes.
pub data Scan : Type 0 where
  need : Scan
  junk : ℕ → Scan
  odd : ℕ → Scan
  whole : StatusFrame → ℕ → Scan

abbrev pub frame_of : ℕ → TagSpec → Bytes → StatusFrame
frame_of tag spec payload = record {
  tag = tag;
  name = spec.name;
  raw = payload;
  value = decode spec.decode payload;
}

unfoldable pub scan_prefixed : ℕ → TagSpec → Bytes → Scan
scan_prefixed tag spec [] = need
scan_prefixed tag spec (n ∷ body) =
    if ltb (length body) n
    then need
    else whole (frame_of tag spec (take n body)) (suc (suc (suc n)))

-- The payload, `body` being what follows the tag.
unfoldable pub scan_payload : ℕ → TagSpec → PayloadLength → Bytes → Scan
unfolding scan_prefixed
scan_payload tag spec length_prefixed body = scan_prefixed tag spec body
scan_payload tag spec (fixed n) body =
    if ltb (length body) n then need else whole (frame_of tag spec (take n body)) (suc (suc n))

unfoldable pub scan_spec : ℕ → Option TagSpec → Bytes → Scan
unfolding scan_payload
scan_spec tag none body = odd tag
scan_spec tag (some spec) body = scan_payload tag spec spec.length body

unfoldable pub scan_tag : Bytes → Scan
unfolding scan_spec
scan_tag [] = need
scan_tag (tag ∷ body) = scan_spec tag (spec_of tag) body

abbrev pub or_all : Option ℕ → ℕ → ℕ
or_all none n = n
or_all (some i) n = i

unfoldable pub scan : Bytes → Scan
unfolding scan_tag find_prefix
scan [] = need
scan (b ∷ bs) =
    if is_prefix b then scan_tag bs else junk (or_all (find_prefix bs 1) (suc (length bs)))

-- `self.unknown_tags[tag] = self.unknown_tags.get(tag, 0) + 1`
abbrev pub count_tag : ℕ → Dict ℕ ℕ → Dict ℕ ℕ
count_tag tag d = dict_set tag (old (dict_get tag d) + 1) d
  where
    old : Option ℕ → ℕ
    old none = 0
    old (some n) = n

-- `_try_one`: the frame if there is one, the number of bytes consumed, and the parser after it; or
-- the `ValueError` of a strict parser.
pub data Tried : Type 0 where
  took : Option StatusFrame → ℕ → StatusParser → Tried
  raised : ℕ → StatusParser → Tried

unfoldable pub try_scan : Scan → StatusParser → Tried
try_scan need p = took none 0 p
try_scan (junk n) p = took none n p
try_scan (odd tag) p =
    let p' = record p { unknown_tags = count_tag tag p.unknown_tags } in
    if p.strict then raised tag p' else took none 2 p'
try_scan (whole f n) p = took (some f) n p

unfoldable pub try_one : StatusParser → Tried
unfolding try_scan
try_one p = try_scan (scan p.buf) p

abbrev pub opt_list : Option StatusFrame → List StatusFrame
opt_list none = []
opt_list (some f) = f ∷ []

pub record UnknownTag : Type 0 where
  pub tag : ℕ
  pub left : StatusParser

-- The `while True` of `feed`. A round that goes on consumes a byte, so `length buf + 1` rounds
-- are enough.
unfoldable pub feed_loop :
    ℕ → StatusParser → List StatusFrame → Result UnknownTag (List StatusFrame × StatusParser)
unfolding try_one
feed_loop zero p frames = ok (frames, p)
feed_loop (suc fuel) p frames = elim (try_one p) [
  | raised tag p' ↦ err (record { tag = tag; left = p' })
  | took frame zero p' ↦ ok (frames, p')
  | took frame (suc n) p' ↦
      feed_loop fuel (record p' { buf = drop (suc n) p'.buf }) (frames ++ opt_list frame)
]

unfoldable pub feed : StatusParser → Bytes → Result UnknownTag (List StatusFrame × StatusParser)
unfolding feed_loop
feed p input = let p' = record p { buf = p.buf ++ input } in feed_loop (suc (length p'.buf)) p' []
