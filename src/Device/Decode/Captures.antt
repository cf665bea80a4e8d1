-- ===== src/Device/Decode/Captures.antt =====
-- src/labelfab/device/decode.py against `print_preamble`: a capture of a print is read back.
use labelfab.Common.{
  ℕ, zero, suc, ◌+◌, ◌-◌, ◌*◌, ◌/◌, ◌%◌, ◌≡◌, refl, ap, sym, ◌∙◌, true, false, ◌&&◌, [], ◌∷◌, ◌++◌,
  append_assoc, length, take, drop, take-length, drop-length, length-append, ltb, ◌==◌,
  if◌then◌else◌, ok, arith, Option, none, some,
}
use labelfab.Device.Protocol.{Bytes, paper_gap}
use labelfab.Device.Framing.{print_preamble}
use labelfab.Device.Framing.Preamble.{
  print_preamble_iff, header_bytes, preamble_bytes, density_bytes, gap_bytes,
}
use labelfab.Device.Decode.{
  Frame, find_from, find_frames, slice, from_bytes_little, decode_at, decode_all, decode_frames,
  decode,
}

-- Where no header begins, the search goes on with the next byte.
find_from-skip :
    (i a b : ℕ) (rest : Bytes)
    → (a == 0x1d && b == 0x76) ≡ false
    → find_from i (a ∷ b ∷ rest) ≡ find_from (suc i) (b ∷ rest)
unfolding find_from
find_from-skip i a b [] h = refl
find_from-skip i a b (c ∷ []) h = refl
find_from-skip i a b (c ∷ d ∷ rest) h = ground arith

drop-nothing : (n : ℕ) → drop {A = ℕ} n [] ≡ []
drop-nothing zero = refl
drop-nothing (suc n) = refl

add_zero : (n : ℕ) → 0 + n ≡ n
add_zero n = omega arith

suc_add : (a b : ℕ) → suc a + b ≡ suc (a + b)
suc_add a b = omega arith

drop-add : (a b : ℕ) (xs : Bytes) → drop (a + b) xs ≡ drop b (drop a xs)
drop-add zero b xs = ap (λ n. drop n xs) (add_zero b)
drop-add (suc a) b [] = ap (λ n. drop n []) (suc_add a b) ∙ sym (drop-nothing b)
drop-add (suc a) b (x ∷ xs) = ap (λ n. drop n (x ∷ xs)) (suc_add a b) ∙ drop-add a b xs

-- What a preamble has before its header.
abbrev pub front_bytes : ℕ → Option ℕ → ℕ → ℕ → ℕ → Bytes
front_bytes w density copies head p =
    density_bytes density p
    ++ (if p == paper_gap
        then gap_bytes w copies head ++ (0x1b ∷ 0x40 ∷ 0x1f ∷ 0x11 ∷ 0x35 ∷ 0x00 ∷ [])
        else 0x1b ∷ 0x40 ∷ [])

preamble-front :
    (w h : ℕ) (density : Option ℕ) (copies head p : ℕ)
    → preamble_bytes w h density copies head p
      ≡ front_bytes w density copies head p ++ header_bytes w h
preamble-front w h none copies head p = ground arith
preamble-front w h (some d) copies head p = ground arith

-- No header begins in the front of a preamble.
find_from-front :
    (w : ℕ) (density : Option ℕ) (copies head p : ℕ) (rest : Bytes)
    → let front = front_bytes w density copies head p in
      find_from 0 (front ++ (0x1d ∷ 0x76 ∷ rest)) ≡ find_from (length front) (0x1d ∷ 0x76 ∷ rest)
unfolding find_from
find_from-front w none copies head p rest = ground arith
find_from-front w (some d) copies head p rest = ground arith

find_from-header :
    (i w h : ℕ) (rest : Bytes)
    → find_from i (header_bytes w h ++ rest)
      ≡ i ∷ find_from (suc (suc (suc (suc i)))) (drop 4 (header_bytes w h ++ rest))
unfolding find_from
find_from-header i w h rest = ground arith

find_from-absent : (i j : ℕ) (xs : Bytes) → find_from i xs ≡ [] → find_from j xs ≡ []
unfolding find_from
find_from-absent i j [] h = refl
find_from-absent i j (x ∷ xs) h = ground (arith, find_from-absent (suc i) (suc j) xs)

little : (n : ℕ) → n % 256 + 256 * (n / 256 + 256 * 0) ≡ n
little n = omega arith

-- A slice whose start is given from the end of the front.
slice-front :
    (front rest : Bytes) (a n start end : ℕ)
    → start ≡ length front + a
    → end ≡ start + n
    → slice (front ++ rest) start end ≡ take n (drop a rest)
slice-front front rest a n start end hs he =
    let m : end - start ≡ n = omega (arith, he) in
    ap (λ k. take k (drop start (front ++ rest))) m
    ∙ ap (λ k. take n (drop k (front ++ rest))) hs
    ∙ ap (take n) (drop-add (length front) a (front ++ rest) ∙ ap (drop a) (drop-length front rest))

-- The frame at a header that the whole of its body follows.
decode_at-header :
    (front body after : Bytes) (w h : ℕ)
    → length body ≡ w * h
    → decode_at (front ++ (header_bytes w h ++ (body ++ after))) (length front)
      ≡ ok (record { width_px = w * 8; height_px = h; offset = length front; body = body })
unfolding decode_at from_bytes_little
decode_at-header front body after w h size =
    let n = length front in
    let rest = header_bytes w h ++ (body ++ after) in
    let stream = front ++ rest in
    let wide : from_bytes_little (slice stream (n + 4) (n + 6)) ≡ w =
      ap from_bytes_little (slice-front front rest 4 2 (n + 4) (n + 6) refl (omega arith))
      ∙ little w in
    let high : from_bytes_little (slice stream (n + 6) (n + 8)) ≡ h =
      ap from_bytes_little (slice-front front rest 6 2 (n + 6) (n + 8) refl (omega arith))
      ∙ little h in
    let start : n + 4 + 4 ≡ n + 8 = omega arith in
    let whole : slice stream (n + 4 + 4) (n + 4 + 4 + w * h) ≡ body =
      slice-front front rest 8 (w * h) (n + 4 + 4) (n + 4 + 4 + w * h) start refl
      ∙ ap (λ k. take k (body ++ after)) (sym size)
      ∙ take-length body after in
    let room : ltb (length stream) (n + 4 + 4) ≡ false =
      ground (arith, length-append front rest, length-append (header_bytes w h) (body ++ after)) in
    let full : (length body == w * h) ≡ true = ground arith in
    rw (wide, high, whole, room, full) refl

find_frames-one :
    (front : Bytes) (w h : ℕ) (rest : Bytes)
    → find_from 0 (front ++ (header_bytes w h ++ rest))
      ≡ find_from (length front) (header_bytes w h ++ rest)
    → find_frames (drop 4 (header_bytes w h ++ rest)) ≡ []
    → find_frames (front ++ (header_bytes w h ++ rest)) ≡ length front ∷ []
unfolding find_frames
find_frames-one front w h rest front_silent rest_silent =
    front_silent
    ∙ find_from-header (length front) w h rest
    ∙ ap (λ offsets. length front ∷ offsets)
        (find_from-absent 0 _ (drop 4 (header_bytes w h ++ rest)) rest_silent)

decode-one :
    (stream : Bytes) (offset : ℕ) (frame : Frame)
    → find_frames stream ≡ offset ∷ []
    → decode_at stream offset ≡ ok frame
    → decode stream ≡ ok frame
unfolding decode decode_frames decode_all
decode-one stream offset frame found made = rw (found, made) refl

-- A capture of a print is read back: from the preamble of a frame, its raster and whatever follows,
-- the decoder gets the width, the height and the raster, if no `GS v 0` begins in the sizes of the
-- header, in the raster or in what follows.
pub decode-print_preamble :
    (w h : ℕ) (density : Option ℕ) (copies head p : ℕ) (pre body after : Bytes)
    → print_preamble w h density copies head p ≡ ok pre
    → length body ≡ w * h
    → find_frames (drop 4 (header_bytes w h ++ (body ++ after))) ≡ []
    → (offset : ℕ) × (decode (pre ++ (body ++ after))
        ≡ ok (record { width_px = w * 8; height_px = h; offset = offset; body = body }))
decode-print_preamble w h density copies head p pre body after made size silent =
    let front = front_bytes w density copies head p in
    let rest = body ++ after in
    let sent = ((print_preamble_iff w h density copies head p pre).0 made).1 in
    let stream : pre ++ rest ≡ front ++ (header_bytes w h ++ rest) =
      ap (λ b. b ++ rest) (sent ∙ preamble-front w h density copies head p)
      ∙ append_assoc front (header_bytes w h) rest in
    let found = find_frames-one front w h rest (find_from-front w density copies head p _) silent in
    (
      length front,
      ap decode stream
          ∙ decode-one (front ++ (header_bytes w h ++ rest)) (length front) _ found
              (decode_at-header front body after w h size),
    )
