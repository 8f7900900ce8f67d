-- ===== src/Tests/Data.antt =====
-- The numbers, sockets and nodes that the examples use.
use ros_bridge.Base.{
  ℕ, String, ◌≡◌, refl, Bool, true, false, List, [], ◌∷◌, some, none, nat_eq, arith, if◌then◌else◌,
}
use ros_bridge.Base.Dict.{lookup, contains}
use ros_bridge.DataItem.Values.{Number, null}
use ros_bridge.DataItem.Plain.{DataItem}
use ros_bridge.DataItem.{event}
use ros_bridge.Adapter.Defs.{Sockets}
use ros_bridge.Library.Events.{Node}
use ros_bridge.Library.Actions.{IsReady}
use ros_bridge.Library.Xml.{Element, Document}

pub nat_eq_refl : (x : ℕ) → nat_eq x x ≡ true
nat_eq_refl x = ground arith

instance abbrev pub nat_number : Number ℕ
nat_number = record { same = nat_eq; same_refl = nat_eq_refl; str = λ x. "1"; repr = λ x. "1" }

-- A socket that works, or that does not.
instance abbrev pub flag_sockets : Sockets Bool
flag_sockets = record {
  transmit = λ s line. if s then some true else none;
  shutdown = λ s. if s then some true else none;
}

abbrev pub idle_event : String → DataItem ℕ
idle_event name = record { name = name; changed = false; value = null; separate_line = false }

abbrev pub two_events : Node ℕ Bool
two_events = record {
  adapter = record {
    clients = ("a", true) ∷ ("b", false) ∷ [];
    data_items = event (idle_event "material_load") ∷ event (idle_event "open_door") ∷ [];
    running = true;
    heartbeat_interval = 10000;
    sent = [];
  };
  di_dict = ("material_load", 0) ∷ ("open_door", 1) ∷ [];
}

pub two_events-IsReady : IsReady two_events
unfolding lookup contains
two_events-IsReady = record {
  quiet = ((refl, refl), ((refl, refl), tt));
  clients = (refl, (refl, tt));
  known = λ name i e. ground arith;
}

abbrev pub element : String → String → String → Element
element tag name text = record { tag = tag; name = some name; text = some text }

abbrev pub document : List Element → Document
document es = record { header = some (some "7"); elements = es }
