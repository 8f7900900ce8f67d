-- ===== src/Tests/Nodes.antt =====
-- Examples for data items, adapters and the shared library of the nodes.
use ros_bridge.Base.{
  map, keep, ℕ, String, ◌≡◌, ◌≢◌, ◌↔◌, refl, Bool, true, false, List, [], ◌∷◌, ◌++◌, some, arith,
  if◌then◌else◌, after, ok,
}
use ros_bridge.Base.Dict.{lookup, contains, member}
use ros_bridge.Base.Unique.{Unique}
use ros_bridge.DataItem.Values.{text, null, value_eq, flag}
use ros_bridge.DataItem.Conditions.{Condition, Fault}
use ros_bridge.DataItem.Marking.{codes}
use ros_bridge.DataItem.Rounds.{round, contains-round, gathered, gathered-unchanged_iff}
use ros_bridge.Adapter.Defs.{send_each, complete_gather, format_line, sweep_all}
use ros_bridge.Adapter.Gather.{flush, complete_gather_lem, report}
use ros_bridge.Adapter.Clients.{told, takes, lookup-send_each, sent-send_each}
use ros_bridge.Library.Tags.{split_event}
use ros_bridge.Library.Goals.{split_list}
use ros_bridge.Library.Events.{Node, action_cb}
use ros_bridge.Library.Effects.{
  Acts, served, told_line, with_value, action_cb-IsReady, action_cb-sent, action_cb-served,
}
use ros_bridge.Tests.Data.{nat_number, flag_sockets, idle_event, two_events, two_events-IsReady}

abbrev two_faults : List Fault
two_faults =
    record { level = "fault"; text = "hot"; code = "1"; qualifier = ""; severity = "3" }
    ∷ record { level = "fault"; text = "dry"; code = "2"; qualifier = ""; severity = "1" }
    ∷ []

-- A condition with the fault of code 2 active.
abbrev dry : Condition ℕ
dry = record {
  item = record { name = "oil"; changed = false; value = flag true; separate_line = true };
  active =
      (
        "2",
        record {
          level = "fault";
          text = "dry";
          code = "2";
          qualifier = "";
          severity = "1";
          changed = false;
          marked = true;
        },
      )
      ∷ [];
}

dry-Unique : Unique dry.active
unfolding contains
dry-Unique = (refl, tt)

one-ne-zero : ◌≢◌ {A = ℕ} 1 0
one-ne-zero e = omega arith

split_event_test : split_event "MaterialLoad" ≡ some "material_load"
unfolding split_event
split_event_test = refl

split_list_test : split_list "1.5, fast" ≡ "1.5" ∷ "fast" ∷ []
unfolding split_list
split_list_test = refl

contains-round_example : contains "1" (round dry two_faults).active ≡ member "1" (codes two_faults)
contains-round_example = contains-round "1" dry two_faults

gathered-unchanged_iff_example :
    ((gathered dry two_faults).changed ≡ false)
    ↔ ((dry.changed ≡ false) × ((k : String) → contains k dry.active ≡ member k (codes two_faults)))
gathered-unchanged_iff_example = gathered-unchanged_iff dry two_faults dry-Unique

complete_gather_lem_example :
    complete_gather "t" two_events.adapter ≡ ok tt (sweep_all (flush "t" two_events.adapter))
complete_gather_lem_example = complete_gather_lem "t" two_events.adapter (refl, (refl, tt))

lookup-send_each_example :
    lookup "b" (send_each "x" ("a" ∷ "b" ∷ []) two_events.adapter).clients ≡ (
      if member "b" ("a" ∷ "b" ∷ [])
      then told "x" (lookup "b" two_events.adapter.clients)
      else lookup "b" two_events.adapter.clients)
unfolding member
lookup-send_each_example =
    lookup-send_each "x" ("a" ∷ "b" ∷ []) "b" two_events.adapter (refl, (refl, tt))

sent-send_each_example :
    (send_each "x" ("a" ∷ "b" ∷ []) two_events.adapter).sent
    ≡ two_events.adapter.sent
      ++ map
          (λ c. (c, "x"))
          (keep (λ c. takes "x" (lookup c two_events.adapter.clients)) ("a" ∷ "b" ∷ []))
unfolding member
sent-send_each_example = sent-send_each "x" ("a" ∷ "b" ∷ []) two_events.adapter (refl, (refl, tt))

action_cb-IsReady_example : (e : Node ℕ Bool) × Acts "t" "open_door" (text "READY") two_events e
unfolding lookup
action_cb-IsReady_example =
    action_cb-IsReady "t" "open_door" 1 (text "READY") two_events two_events-IsReady refl

action_cb-sent_example :
    (after (action_cb "t" "open_door" (text "READY") two_events)).adapter.sent
    ≡ two_events.adapter.sent
      ++ (if value_eq {N = ℕ} null (text "READY")
          then []
          else told_line
              (format_line "t" (report (with_value (text "READY") (idle_event "open_door"))))
              two_events.adapter.clients)
unfolding lookup
action_cb-sent_example =
    action_cb-sent "t" "open_door" 1 (text "READY") two_events (idle_event "open_door")
      two_events-IsReady refl refl

action_cb-served_example :
    let e = after (action_cb "t" "open_door" (text "READY") two_events) in
    (served "open_door" e ≡ some (text "READY"))
    × (served "material_load" e ≡ served "material_load" two_events)
unfolding lookup
action_cb-served_example =
    action_cb-served "t" "open_door" "material_load" 1 0 "READY" two_events two_events-IsReady refl
      refl one-ne-zero
