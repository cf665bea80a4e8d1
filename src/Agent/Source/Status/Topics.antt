-- ===== src/Agent/Source/Status/Topics.antt =====
-- `MqttSource` of src/labelfab/agent/source_mqtt.py: what the status topic says.
use labelfab.Common.{ℕ, ◌≡◌, refl, Bool, true, false, List, [], ◌∷◌, Option, none, some, arith}
use labelfab.Contract.{disconnected}
use labelfab.Agent.Snapshot.{PrinterStatus}
use labelfab.Agent.Source.Status.{StatusTopic, publish_status, on_connect, start, drop, stop}

-- What happens to the source and its connection.
pub data Event : Type 0 where
  publishes : PrinterStatus → Bool → Event
  connects : ℕ → Event
  drops stops : Event

abbrev pub apply : Event → StatusTopic → StatusTopic
apply (publishes s retain) t = publish_status s retain t
apply (connects reason_code) t = on_connect reason_code t
apply drops t = drop t
apply stops t = stop t

abbrev pub apply_all : List Event → StatusTopic → StatusTopic
apply_all [] t = t
apply_all (e ∷ es) t = apply_all es (apply e t)

-- A status that says that the printer cannot be reached.
abbrev pub IsDown : Option PrinterStatus → Type 0
IsDown none = ⊥
IsDown (some s) = (s.state ≡ disconnected) × (s.pending_labels ≡ 0)

-- While there is a connection the topic has the status that was published last, and the broker holds
-- a will; the will that is armed says that the printer cannot be reached.
abbrev pub IsTruthful : StatusTopic → Type 0
IsTruthful t =
    (t.is_connected ≡ true → (t.retained ≡ some t.last_status) × IsDown t.held_will)
    × IsDown t.armed

apply-IsTruthful : (e : Event) (t : StatusTopic) → IsTruthful t → IsTruthful (apply e t)
unfolding publish_status on_connect drop stop
apply-IsTruthful (publishes s retain) t h = ground arith
apply-IsTruthful (connects reason_code) t h = ground arith
apply-IsTruthful drops t h = ground arith
apply-IsTruthful stops t h = ground arith

drop-IsDown : (t : StatusTopic) → IsTruthful t → t.is_connected ≡ true → IsDown (drop t).retained
unfolding drop
drop-IsDown t h on = ground arith

keeps-IsTruthful : (es : List Event) (t : StatusTopic) → IsTruthful t → IsTruthful (apply_all es t)
keeps-IsTruthful [] t h = h
keeps-IsTruthful (e ∷ es) t h = keeps-IsTruthful es (apply e t) (apply-IsTruthful e t h)

start-IsTruthful : (t : StatusTopic) → t.is_connected ≡ false → IsTruthful (start t)
unfolding start
start-IsTruthful t off = (λ on. cc, (refl, refl))

-- Once started, whatever is published and however often the connection comes and goes, the topic has
-- the status that was published last as long as there is a connection; and when it drops, the topic
-- says that the printer cannot be reached.
pub apply_all-IsTruthful :
    (es : List Event) (t : StatusTopic)
    → t.is_connected ≡ false
    → let u = apply_all es (start t) in
      IsTruthful u × (u.is_connected ≡ true → IsDown (drop u).retained)
apply_all-IsTruthful es t off =
    let h = keeps-IsTruthful es (start t) (start-IsTruthful t off) in
    (h, drop-IsDown (apply_all es (start t)) h)
