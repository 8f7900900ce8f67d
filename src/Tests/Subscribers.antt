-- ===== src/Tests/Subscribers.antt =====
-- Examples for the start of the subscriber.
use ros_bridge.Base.{ℕ, String, ◌≡◌, refl, arith, Bool, List, [], ◌∷◌, some, ok, after, pos}
use ros_bridge.Base.Dict.{insert, lookup, member}
use ros_bridge.Library.Events.{add_event, add_events, event_name}
use ros_bridge.Library.Packages.{Packages, Types, finds, split_slash}
use ros_bridge.Library.Startup.{Config, line, count, content, require, reaches}
use ros_bridge.Library.Tags.{
  split_event, islower, any_char, is_lower, is_upper, find_tokens, scan_tokens, lower, lower_char,
}
use ros_bridge.Adapter.Connections.{start}
use ros_bridge.Subscriber.Defs.{Member, subscribe, subscribe_pass}
use ros_bridge.Subscriber.Topics.{subscribe-ends}
use ros_bridge.Subscriber.Startup.{
  Subscriber, new_subscriber, find_class, setup_type, setup_topics, listen, start_subscriber,
}
use ros_bridge.Subscriber.Serving.{named_topics, IsServing}
use ros_bridge.Subscriber.Listening.{start_subscriber-IsServing}
use ros_bridge.Tests.Data.{nat_number, flag_sockets}

-- The configuration of bridge_subscriber_config.yaml, with some of its data items.
abbrev config : Config Types
config =
    ("url", line "localhost")
    ∷ ("adapter_port", count 7881)
    ∷ (
      "RobotStateTopic",
      content (("mtconnect_msgs/RobotStates", ("avail", ("ENABLED", "AVAILABLE") ∷ []) ∷ []) ∷ []),
    )
    ∷ (
      "RobotSpindleTopic",
      content (("mtconnect_msgs/RobotSpindle", ("c_unclamp", ("TRUE", "UNCLAMP") ∷ []) ∷ []) ∷ []),
    )
    ∷ []

abbrev packages : Packages (List Member)
packages = record {
  manifest = λ name. finds tt;
  type_handle = λ name type_name.
      finds (record { name = "avail"; attributes = ("ENABLED", pos 1) ∷ [] } ∷ []);
}

-- The second topic is published later.
abbrev passes : List (List String)
passes = ("RobotStateTopic" ∷ []) ∷ ("RobotStateTopic" ∷ "RobotSpindleTopic" ∷ []) ∷ []

abbrev started : Subscriber ℕ Bool
started = after (start_subscriber packages "t" (some config) passes (new_subscriber 10000))

start_subscriber-runs :
    start_subscriber packages "t" (some config) passes (new_subscriber 10000)
    ≡ ok (reaches ("RobotStateTopic" ∷ "RobotSpindleTopic" ∷ [])) started
unfolding start_subscriber setup_topics setup_type find_class listen subscribe subscribe_pass
    require member insert add_event add_events event_name split_event find_tokens scan_tokens lower
    lower_char is_upper is_lower islower any_char split_slash start lookup
start_subscriber-runs = refl

start_subscriber-IsServing_example :
    IsServing started
    × ((j : String)
        → member j ("RobotStateTopic" ∷ "RobotSpindleTopic" ∷ []) ≡ member j (named_topics config))
start_subscriber-IsServing_example =
    start_subscriber-IsServing packages "t" 10000 config passes
      ("RobotStateTopic" ∷ "RobotSpindleTopic" ∷ []) started start_subscriber-runs

abbrev three : List String
three = "a" ∷ "b" ∷ "c" ∷ []

subscribe-ends_example : (subscribe (three ∷ three ∷ []) three).0 ≡ []
unfolding member
subscribe-ends_example =
    subscribe-ends (three ∷ three ∷ []) three
      ((refl, (refl, (refl, tt))), ((refl, (refl, (refl, tt))), tt)) (omega arith)
