-- ===== src/Device/Tags/Table.antt =====
-- `TAGS` of src/labelfab/device/responses.py: payload lengths against decoders.
use labelfab.Common.{
  ℕ, ◌≤◌, ◌≡◌, ◌≢◌, refl, Bool, true, false, ◌&&◌, [], ◌∷◌, none, some, arith, Dict, nat_eq,
  dict_get, leb, ◌==◌, if◌then◌else◌, length,
}
use labelfab.Device.Protocol.{Bytes}
use labelfab.Device.Tags.{
  TagSpec, PayloadLength, length_prefixed, fixed, Decoder, undecoded, version, serial_text,
  decivolts, feature_bits, hex_upper, decode, tags, spec_of,
}

-- The decoders that accept an empty payload.
abbrev pub reads_empty : Decoder → Bool
reads_empty undecoded = true
reads_empty version = true
reads_empty serial_text = true
reads_empty decivolts = true
reads_empty feature_bits = true
reads_empty hex_upper = true
reads_empty _ = false

-- A fixed length is at most 15, and a decoder that reads a first byte has one to read.
abbrev pub fits_length : PayloadLength → Decoder → Bool
fits_length length_prefixed d = reads_empty d
fits_length (fixed n) d = leb n 15 && (if n == 0 then reads_empty d else true)

abbrev pub fits : TagSpec → Bool
fits s = fits_length s.length s.decode

all_fit : Dict ℕ TagSpec → Bool
all_fit [] = true
all_fit ((t, s) ∷ d) = fits s && all_fit d

all_fit-tags : all_fit tags ≡ true
unfolding all_fit tags
all_fit-tags = refl

all_fit-dict_get :
    (t : ℕ) (d : Dict ℕ TagSpec) (s : TagSpec)
    → all_fit d ≡ true
    → dict_get t d ≡ some s
    → fits s ≡ true
unfolding all_fit dict_get
all_fit-dict_get t [] s h e = cc
all_fit-dict_get t ((u, r) ∷ d) s h e = ground (arith, all_fit-dict_get t d s)

pub spec_of-fits : (t : ℕ) (s : TagSpec) → spec_of t ≡ some s → fits s ≡ true
unfolding spec_of
spec_of-fits t s e = all_fit-dict_get t tags s all_fit-tags e

pub fixed_fits : (s : TagSpec) (n : ℕ) → s.length ≡ fixed n → fits s ≡ true → n ≤ 15
fixed_fits s n e h = let h' : fits_length (fixed n) s.decode ≡ true = rw e at h in ground arith

decode-nil : (d : Decoder) → reads_empty d ≡ true → d ≢ undecoded → decode d [] ≢ none
unfolding decode
decode-nil undecoded h k = absurd (k refl)
decode-nil version h k = λ e. cc
decode-nil _ h k = λ e. cc

decode-cons : (d : Decoder) (b : ℕ) (bs : Bytes) → d ≢ undecoded → decode d (b ∷ bs) ≢ none
unfolding decode
decode-cons undecoded b bs k = absurd (k refl)
decode-cons version b bs k = λ e. cc
decode-cons _ b bs k = λ e. cc

pub decode-ne-none :
    (d : Decoder) (l : PayloadLength) (payload : Bytes)
    → fits_length l d ≡ true
    → ((n : ℕ) → l ≡ fixed n → length payload ≡ n)
    → d ≢ undecoded
    → decode d payload ≢ none
decode-ne-none d l (b ∷ bs) h s k = decode-cons d b bs k
decode-ne-none d length_prefixed [] h s k = decode-nil d h k
decode-ne-none d (fixed n) [] h s k = decode-nil d (let e : 0 ≡ n = s n refl in ground arith) k
