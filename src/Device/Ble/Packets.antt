-- ===== src/Device/Ble/Packets.antt =====
-- `BleTransport.write` of src/labelfab/device/ble.py: the packets of a write.
use labelfab.Common.{
  ℕ, zero, suc, ◌≤◌, ◌<◌, ◌≡◌, inl, inr, refl, Bool-cases, subst, ap, sym, ◌∙◌, Bool, true, false,
  ◌&&◌, List, [], ◌∷◌, ◌++◌, append_assoc, append-nil, Option, length, length-take, length-drop,
  take-append-drop, take, drop, if◌then◌else◌, ok, All, arith,
}
use labelfab.Device.Protocol.{Bytes}
use labelfab.Device.Ble.{
  Done, packet, outcome, Link, Fate, acknowledged, unacknowledged, broken, set_ack, packet_size,
  write_packets, write,
}

-- The packets put together.
unfoldable pub joined : List Bytes → Bytes
joined [] = []
joined (p ∷ ps) = p ++ joined ps

abbrev pub Small : ℕ → Bytes → Type 0
Small size p = (0 < length p) × (length p ≤ size)

-- New packets of bytes of the input, in order, from its front; all of it when the write returns.
abbrev pub Wrote : ℕ → Bytes → Link → Bool × Link → Type 0
Wrote size input l (done, m) =
    (ps : List Bytes) × (m.packets ≡ l.packets ++ ps)
    × All (Small size) ps
    × ((rest : Bytes) × (joined ps ++ rest ≡ input) × (done ≡ true → rest ≡ []))

packets-set_ack : (gated b : Bool) (l : Link) → (set_ack gated b l).packets ≡ l.packets
packets-set_ack true b l = refl
packets-set_ack false b l = refl

-- A packet is written when the write goes on, and only then.
packets-packet :
    (f : Fate) (gated : Bool) (p : Bytes) (l : Link)
    → let (goes_on, m) = packet f gated p l in
      m.packets ≡ l.packets ++ (if goes_on then p ∷ [] else [])
packets-packet acknowledged gated p l =
    packets-set_ack gated true _ ∙ ap (λ ps. ps ++ (p ∷ [])) (packets-set_ack gated false l)
packets-packet unacknowledged gated p l = ap (λ ps. ps ++ (p ∷ [])) (packets-set_ack gated false l)
packets-packet broken gated p l = packets-set_ack gated false l ∙ sym (append-nil l.packets)

Wrote-nothing :
    (size : ℕ) (input : Bytes) (l m : Link) → m.packets ≡ l.packets → Wrote size input l (false, m)
unfolding joined
Wrote-nothing size input l m same =
    ([], same ∙ sym (append-nil l.packets), tt, (input, refl, λ e. cc))

-- A packet of the front of the input, then the packets of the rest.
Wrote-more :
    (size : ℕ) (front back : Bytes) (l m : Link) (r : Bool × Link)
    → Small size front
    → m.packets ≡ l.packets ++ (front ∷ [])
    → Wrote size back m r
    → Wrote size (front ++ back) l r
unfolding joined
Wrote-more size front back l m (done, n) small same (ps, added, smalls, (rest, whole, all)) = (
  front ∷ ps,
  added ∙ ap (λ qs. qs ++ ps) same ∙ append_assoc l.packets (front ∷ []) ps,
  (small, smalls),
  (rest, append_assoc front (joined ps) rest ∙ ap (λ b. front ++ b) whole, all),
)

Wrote-packet :
    (size : ℕ) (front back : Bytes) (l m : Link) (goes_on : Bool) (rest : Bool × Link)
    → Small size front
    → m.packets ≡ l.packets ++ (if goes_on then front ∷ [] else [])
    → Wrote size back m rest
    → Wrote size (front ++ back) l (if goes_on then rest else (false, m))
Wrote-packet size front back l m true rest small same h =
    Wrote-more size front back l m rest small same h
Wrote-packet size front back l m false rest small same h =
    Wrote-nothing size (front ++ back) l m (same ∙ append-nil l.packets)

write_packets-Wrote :
    (k fuel : ℕ) (gated : Bool) (fate : ℕ → Fate) (input : Bytes) (l : Link)
    → length input ≤ fuel
    → Wrote (suc k) input l (write_packets (suc k) fuel gated fate input l)
unfolding write_packets joined
write_packets-Wrote k fuel gated fate [] l h =
    ([], sym (append-nil l.packets), tt, ([], refl, λ e. refl))
write_packets-Wrote k zero gated fate (b ∷ bs) l h = absurd (omega arith)
write_packets-Wrote k (suc fuel) gated fate (b ∷ bs) l h =
    let f = fate (length l.packets) in
    let front = take (suc k) (b ∷ bs) in
    let back = drop (suc k) (b ∷ bs) in
    let whole : front ++ back ≡ b ∷ bs = take-append-drop (suc k) (b ∷ bs) in
    let count = length-take (suc k) (b ∷ bs) in
    let small : Small (suc k) front = (omega (arith, count), omega (arith, count)) in
    let less : length back ≤ fuel = omega (arith, length-drop (suc k) (b ∷ bs), h) in
    let (goes_on, m) = packet f gated front l in
    let rest = write_packets-Wrote k fuel gated fate back m less in
    subst
      (λ i.
        Wrote (suc k) i l
          (if goes_on then write_packets (suc k) fuel gated fate back m else (false, m)))
      whole
      (Wrote-packet (suc k) front back l m goes_on _ small (packets-packet f gated front l) rest)

abbrev pub Sent : ℕ → Bytes → Link → Done → Type 0
Sent size input l (r, m) =
    (ps : List Bytes) × (m.packets ≡ l.packets ++ ps)
    × All (Small size) ps
    × ((rest : Bytes) × (joined ps ++ rest ≡ input) × (r ≡ ok tt → rest ≡ []))

outcome-Sent :
    (hangs : Bool) (size : ℕ) (input : Bytes) (l : Link) (r : Bool × Link)
    → Wrote size input l r
    → Sent size input l (outcome hangs r)
outcome-Sent hangs size input l (true, m) (ps, added, small, (rest, whole, all)) =
    (ps, added, small, (rest, whole, λ e. all refl))
outcome-Sent hangs size input l (false, m) (ps, added, small, (rest, whole, all)) =
    (ps, added, small, (rest, whole, λ e. cc))

packets-Sent :
    (size : ℕ) (gated hangs : Bool) (fate : ℕ → Fate) (input : Bytes) (l : Link)
    → 20 ≤ size
    → Sent size input l (outcome hangs (write_packets size (length input) gated fate input l))
packets-Sent zero gated hangs fate input l h = absurd (omega arith)
packets-Sent (suc k) gated hangs fate input l h =
    outcome-Sent hangs (suc k) input l _
      (write_packets-Wrote k (length input) gated fate input l (omega arith))

-- What a write puts out, whether acknowledged in time or not: packets of at least a byte and at most
-- what the connection takes, which are the front of the input, and all of it when the write returns.
pub write-Sent :
    (is_connected : Bool) (mtu_size : Option ℕ) (flow_control hangs : Bool) (fate : ℕ → Fate)
    (input : Bytes) (l : Link)
    → Sent
        (packet_size mtu_size)
        input
        l
        (write is_connected mtu_size flow_control hangs fate input l)
unfolding write joined
write-Sent is_connected mtu_size flow_control hangs fate input l =
    elim (Bool-cases (l.has_client && is_connected && l.has_loop)) [
      | inl usable ↦ rw usable (
          packets-Sent (packet_size mtu_size) (flow_control && l.has_ack) hangs fate input l
            (omega arith))
      | inr unusable ↦ rw unusable ([], sym (append-nil l.packets), tt, (input, refl, λ e. cc))
    ]
