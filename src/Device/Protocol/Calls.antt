-- ===== src/Device/Protocol/Calls.antt =====
-- `Command.__call__` of src/labelfab/device/protocol.py: when a call is accepted, and what it sends.
use labelfab.Common.{
  ℕ, ◌<◌, ◌≡◌, refl, ◌↔◌, true, List, [], ◌∷◌, ◌++◌, map, String, arith, leb, Bool-cases, leb→le,
  length, All, ok, err, >>=-eq-ok, ℤ, pos, negsuc, inl, inr,
}
use labelfab.Device.Protocol.{
  Bytes, Command, not_a_byte, wrong_arity, expected_args, arity_ok, value_bytes, call,
}

abbrev pub IsByte : ℕ → Type 0
IsByte n = n < 256

-- `out` is the opcode followed by the values, each of them a byte, as many as the command takes.
abbrev pub Encodes : Command → List ℤ → Bytes → Type 0
Encodes c values out =
    (bs : Bytes) × (values ≡ map pos bs)
    × All IsByte bs
    × (arity_ok c.args (length values) ≡ true)
    × (out ≡ c.opcode ++ bs)

value_bytes-map :
    (name : String) (bs : Bytes) → All IsByte bs → value_bytes name (map pos bs) ≡ ok bs
unfolding value_bytes
value_bytes-map name [] h = refl
value_bytes-map name (b ∷ bs) h = ground (arith, value_bytes-map name bs h.1)

value_bytes-eq-ok :
    (name : String) (values : List ℤ) (bs : Bytes)
    → value_bytes name values ≡ ok bs
    → (values ≡ map pos bs) × All IsByte bs
unfolding value_bytes
value_bytes-eq-ok name [] bs h = let e : bs ≡ [] = cc in rw e (refl, tt)
value_bytes-eq-ok name (negsuc n ∷ vs) bs h = cc
value_bytes-eq-ok name (pos n ∷ vs) bs h = elim (Bool-cases (leb n 0xFF)) [
  | inl small ↦
      let (tl, e, k) = >>=-eq-ok (value_bytes name vs) (λ r. ok (n ∷ r)) (rw small at h) in
      let (ih, bytes) = value_bytes-eq-ok name vs tl e in
      let whole : bs ≡ n ∷ tl = cc in rw whole (cc, (omega (arith, leb→le n 0xFF small), bytes))
  | inr large ↦ let bad : err (not_a_byte name (pos n)) ≡ ok bs = (rw large at h) in cc
]

-- A call is accepted exactly when every value is a byte and their number is the command's, and it
-- then sends the opcode followed by those bytes.
pub call_iff :
    (c : Command) (values : List ℤ) (out : Bytes) → (call c values ≡ ok out) ↔ Encodes c values out
unfolding call
call_iff c values out = (forth, back)
  where
    forth : call c values ≡ ok out → Encodes c values out
    forth h = elim (Bool-cases (arity_ok c.args (length values))) [
      | inl fits ↦
          let (bs, e, k) =
            >>=-eq-ok (value_bytes c.name values) (λ r. ok (c.opcode ++ r)) (rw fits at h) in
          let (vals, bytes) = value_bytes-eq-ok c.name values bs e in (bs, vals, bytes, fits, cc)
      | inr misfits ↦ absurd (wrong (rw misfits at h))
    ]
      where
        wrong : err (wrong_arity c.name (expected_args c.args) (length values)) ≡ ok out → ⊥
        wrong e = cc

    back : Encodes c values out → call c values ≡ ok out
    back (bs, vals, bytes, fits, sent) = rw (fits, vals, value_bytes-map c.name bs bytes, sent) refl
