-- ===== src/Tests/Bridges.antt =====
-- Examples for the four bridge nodes.
use ros_bridge.Base.{
  length, ◌+◌, ◌≤◌, ◌++◌, ℤ, pos, ℕ, String, ◌≡◌, ◌≢◌, refl, Bool, false, List, [], ◌∷◌, some, none,
  Option, arith, after, ok, err, unbound_local,
}
use ros_bridge.Base.Dict.{lookup, contains, insert}
use ros_bridge.DataItem.Values.{text}
use ros_bridge.Library.Events.{Node}
use ros_bridge.Library.Effects.{served}
use ros_bridge.Library.Tags.{
  split_event, find_tokens, scan_tokens, is_upper, is_lower, upper, upper_char,
}
use ros_bridge.Library.Startup.{Reply, responds}
use ros_bridge.Library.Xml.{Document, Chunk, xml_components, find_tags}
use ros_bridge.Server.Defs.{Server, Session, Tick, arrives, polls, execute_cb, path_tag}
use ros_bridge.Server.Phases.{Phase, asked, won, is_open, Rel}
use ros_bridge.Server.Runs.{follow_all}
use ros_bridge.Server.Requests.{IsConfigured, Shows, execute_cb-Goes}
use ros_bridge.Server.Order.{conclude, arrivals, execute_cb-conclude}
use ros_bridge.Server.Draining.{drain, execute_cb-decides}
use ros_bridge.Publisher.Defs as Publisher
use ros_bridge.Publisher.Queue.{ros_publisher-published}
use ros_bridge.Publisher.Current.{merged, process_xml-merged}
use ros_bridge.Subscriber.Defs as Subscriber
use ros_bridge.Subscriber.Conversion.{After, conversion-After, conversion_stale}
use ros_bridge.Tests.Data.{
  nat_number, flag_sockets, two_events, two_events-IsReady, element, document,
}

-- A server for the action open_door, with no chunk in its queue.
abbrev door_server : Server ℕ Bool
door_server = record {
  node = two_events;
  capture_xml = false;
  xml_queue = [];
  server_name = ("open_door", "OpenDoor") ∷ [];
  results = ("OpenDoor", none) ∷ [];
  verdicts = [];
}

abbrev agent : String → String → Reply Chunk
agent state tag = responds 200 (some (document (element "OpenDoor" "door" state ∷ [])))

abbrev door_is : String → Chunk
door_is state = some (document (element "OpenDoor" "door" state ∷ []))

abbrev door_opens : List Tick
door_opens =
    arrives (door_is "ACTIVE")
    ∷ polls "1"
    ∷ arrives (door_is "COMPLETE")
    ∷ polls "2"
    ∷ arrives (door_is "READY")
    ∷ polls "3"
    ∷ []

door_server-IsConfigured : IsConfigured "open_door" "OpenDoor" 1 door_server
unfolding lookup contains
door_server-IsConfigured = record {
  ready = two_events-IsReady;
  known = refl;
  named = refl;
  listed = refl;
}

agent-Shows : (state : String) → Shows (agent state) "OpenDoor" (some state)
unfolding path_tag find_tokens scan_tokens is_upper is_lower upper upper_char
agent-Shows state = record {
  tag = "OPEN_DOOR";
  doc = document (element "OpenDoor" "door" state ∷ []);
  seq = "7";
  head = element "OpenDoor" "door" state;
  others = [];
  path = refl;
  found = refl;
  header = refl;
  elements = refl;
  shown = refl;
}

three_rounds : 0 + length (arrivals door_opens) ≤ 3
three_rounds = omega arith

execute_cb-Goes_example :
    let (p, q) = follow_all "OpenDoor" door_opens asked [] in
    (t : Session ℕ Bool) × (execute_cb "0" (agent "READY") "open_door" door_opens door_server
      ≡ ok t.dwell t.server)
    × (t.dwell ≡ is_open p)
    × Rel "open_door" "OpenDoor" 1 [] p q t
execute_cb-Goes_example =
    execute_cb-Goes "0" "open_door" "OpenDoor" 1 (agent "READY") door_opens door_server
      door_server-IsConfigured (agent-Shows "READY") (refl, (tt, (refl, (tt, (refl, (tt, tt)))))) tt

execute_cb-conclude_example :
    (p : Phase) × (t : Session ℕ Bool) × (execute_cb "0"
        (agent "READY")
        "open_door"
        door_opens
        door_server
      ≡ ok (is_open p) t.server)
    × Rel "open_door" "OpenDoor" 1 [] p t.xml_queue t
    × (conclude "OpenDoor" p t.xml_queue ≡ conclude "OpenDoor" asked (arrivals door_opens))
execute_cb-conclude_example =
    execute_cb-conclude "0" "open_door" "OpenDoor" 1 (agent "READY") door_opens door_server
      door_server-IsConfigured (agent-Shows "READY") (refl, (tt, (refl, (tt, (refl, (tt, tt)))))) tt

execute_cb-decides_example :
    (t : Session ℕ Bool) × (execute_cb "0"
        (agent "READY")
        "open_door"
        (door_opens ++ drain "9" 3)
        door_server
      ≡ ok false t.server)
    × Rel "open_door" "OpenDoor" 1 [] won t.xml_queue t
execute_cb-decides_example =
    execute_cb-decides "0" "open_door" "OpenDoor" 1 (agent "READY") door_opens 3 "9" door_server
      door_server-IsConfigured (agent-Shows "READY") (refl, (tt, (refl, (tt, (refl, (tt, tt)))))) tt
      three_rounds

zero-ne-one : ◌≢◌ {A = Option ℕ} (some 0) (some 1)
zero-ne-one e = ground arith

-- A publisher of one data item.
abbrev door_publisher : Option String → Publisher.Publisher
door_publisher state = record {
  topics = record { name = "Door"; conversion = ("DoorState", ("OPEN", "OPENED") ∷ []) ∷ [] } ∷ [];
  msgs = [];
  di_current = ("DoorState", state) ∷ [];
  di_changed = none;
  xml_queue = [];
  unfinished = 0;
  data_hold = none;
  published = [];
}

abbrev door_document : Document
door_document = document (element "DoorState" "door_state" "OPEN" ∷ [])

door_document-process_xml :
    Publisher.process_xml (some door_document) (door_publisher none)
    ≡ ok (("DoorState", some "OPEN") ∷ []) (door_publisher (some "OPEN"))
unfolding Publisher.process_xml xml_components Publisher.match_all find_tags Publisher.match_item
    split_event insert Publisher.init_di_dict
door_document-process_xml = refl

process_xml-merged_example :
    Publisher.state_of "DoorState" (door_publisher (some "OPEN")).di_current
    ≡ merged
        (Publisher.state_of "DoorState" (("DoorState", some "OPEN") ∷ []))
        (Publisher.state_of "DoorState" (door_publisher none).di_current)
process_xml-merged_example =
    process_xml-merged door_document (door_publisher none) (door_publisher (some "OPEN"))
      (("DoorState", some "OPEN") ∷ []) "DoorState" (("OPEN", refl), tt) door_document-process_xml

abbrev constant : String → String → String → Option ℤ
constant topic name tag = some (pos 1)

abbrev queued_publisher : Publisher.States → Publisher.Publisher
queued_publisher held = record (door_publisher (some "OPEN")) {
  di_changed = some (("DoorState", some "OPEN") ∷ []);
  xml_queue = held ∷ [];
}

ros_publisher-published_example :
    (after (
      Publisher.ros_publisher constant
        (queued_publisher (("DoorState", some "OPEN") ∷ [])))).published
    ≡ (after (
        Publisher.ros_publisher constant
          (queued_publisher (("DoorState", some "CLOSED") ∷ [])))).published
ros_publisher-published_example =
    ros_publisher-published constant (("DoorState", some "OPEN") ∷ [])
      (("DoorState", some "CLOSED") ∷ []) [] (queued_publisher (("DoorState", some "OPEN") ∷ []))

abbrev robot_topic : Subscriber.Topic
robot_topic = record {
  name = "Robot";
  items = ("open_door", ("OPEN", "OPENED") ∷ []) ∷ ("material_load", ("BUSY", "ACTIVE") ∷ []) ∷ [];
  members = [];
}

conversion-After_example :
    (e : Node ℕ Bool) × (Subscriber.data_item_conversion "t" robot_topic
        (("open_door", "OPEN" ∷ []) ∷ ("material_load", "IDLE" ∷ "BUSY" ∷ []) ∷ [])
        none
        two_events
      ≡ ok tt e)
    × After "t" robot_topic two_events.di_dict
        (("open_door", "OPEN" ∷ []) ∷ ("material_load", "IDLE" ∷ "BUSY" ∷ []) ∷ [])
        two_events
        e
unfolding lookup
conversion-After_example =
    conversion-After "t" robot_topic two_events.di_dict
      (("open_door", "OPEN" ∷ []) ∷ ("material_load", "IDLE" ∷ "BUSY" ∷ []) ∷ []) none two_events
      two_events-IsReady refl ((1, "OPENED", refl, refl), ((0, "ACTIVE", refl, refl), tt))
      ((λ e. zero-ne-one e, tt), (tt, tt))

conversion_stale_example :
    (served "material_load" (
        after (
          Subscriber.data_item_conversion "t" robot_topic
            (("open_door", "OPEN" ∷ []) ∷ ("material_load", []) ∷ [])
            none
            two_events))
      ≡ some (text "OPENED"))
    × (Subscriber.data_item_conversion "t" robot_topic (("material_load", []) ∷ []) none two_events
        ≡ err unbound_local two_events)
unfolding lookup
conversion_stale_example =
    conversion_stale "t" robot_topic "open_door" "material_load" "OPENED" ("OPEN" ∷ []) 1 0 none
      two_events two_events-IsReady refl refl refl
