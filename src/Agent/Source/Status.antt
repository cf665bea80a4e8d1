-- ===== src/Agent/Source/Status.antt =====
-- `MqttSource` of src/labelfab/agent/source_mqtt.py and the status topic: the status that is kept, the
-- will, and what the broker holds. The broker keeps a retained message that reaches it over a
-- connection, takes the will with the connect, and publishes it when the connection drops; what is
-- published without a connection goes nowhere.
pub mod Topics
use labelfab.Common.{ℕ, Bool, true, false, Option, none, some, ◌==◌, if◌then◌else◌}
use labelfab.Contract.{disconnected}
use labelfab.Agent.Snapshot.{PrinterStatus}

-- `_last_status` and the will that is armed; then the connection, the will that the broker holds for
-- it, and the retained message of the topic.
pub record StatusTopic : Type 0 where
  pub last_status : PrinterStatus
  pub armed : Option PrinterStatus
  pub is_connected : Bool
  pub held_will : Option PrinterStatus
  pub retained : Option PrinterStatus

-- `_disconnected`
abbrev pub down : PrinterStatus → PrinterStatus
down s = record s { state = disconnected; pending_labels = 0 }

-- `_arm_will`
abbrev pub arm_will : StatusTopic → StatusTopic
arm_will t = record t { armed = some (down t.last_status) }

-- `self.client.publish(…, retain=retain)` on the status topic
abbrev pub reach_broker : Bool → PrinterStatus → StatusTopic → StatusTopic
reach_broker true s t = record t { retained = some s }
reach_broker false s t = t

abbrev pub publish_with : Bool → PrinterStatus → StatusTopic → StatusTopic
publish_with true s t = reach_broker t.is_connected s (record t { last_status = s })
publish_with false s t = t

-- `publish_status`
unfoldable pub publish_status : PrinterStatus → Bool → StatusTopic → StatusTopic
publish_status s retain t = publish_with retain s t

-- The connection is made: the broker takes the will, then `_on_connect` runs. With a reason code other
-- than 0 there is no connection.
abbrev pub connected : Bool → StatusTopic → StatusTopic
connected true t =
    arm_will
      (publish_with true t.last_status (record t { is_connected = true; held_will = t.armed }))
connected false t = t

unfoldable pub on_connect : ℕ → StatusTopic → StatusTopic
on_connect reason_code t = connected (reason_code == 0) t

-- `start`, before the connect
unfoldable pub start : StatusTopic → StatusTopic
start t = arm_will t

-- The broker publishes the will when the connection drops.
abbrev pub fire : Option PrinterStatus → StatusTopic → StatusTopic
fire none t = record t { is_connected = false; held_will = none }
fire (some s) t = record t { is_connected = false; held_will = none; retained = some s }

abbrev pub drop_if : Bool → StatusTopic → StatusTopic
drop_if true t = fire t.held_will t
drop_if false t = t

unfoldable pub drop : StatusTopic → StatusTopic
drop t = drop_if t.is_connected t

-- `stop`: the last message, then a disconnect, on which the broker drops the will.
unfoldable pub stop : StatusTopic → StatusTopic
unfolding publish_status
stop t = record (publish_status (down t.last_status) true t) {
  is_connected = false;
  held_will = none;
}
