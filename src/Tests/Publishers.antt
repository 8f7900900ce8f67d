-- ===== src/Tests/Publishers.antt =====
-- Examples for the start of the publisher.
use ros_bridge.Base.{ℤ, String, ◌≡◌, refl, List, [], ◌∷◌, some, ok, after, pos}
use ros_bridge.Base.Dict.{Dict, lookup, insert, keys, member, contains}
use ros_bridge.Library.Xml.{Element, Document, xml_components, find_tags}
use ros_bridge.Library.Tags.{
  split_event, islower, any_char, is_lower, is_upper, find_tokens, scan_tokens, lower, lower_char,
}
use ros_bridge.Library.Connectivity.{opens, check_connectivity}
use ros_bridge.Library.Startup.{
  Config, line, count, content, Agent, lacks_socket, responds, reaches, sample_path, require,
  xml_get_response, read_current, await_agent,
}
use ros_bridge.Library.Reaching.{Shows}
use ros_bridge.Publisher.Defs.{Publisher, init_di_dict}
use ros_bridge.Library.Packages.{Packages, Types, finds, split_slash}
use ros_bridge.Publisher.Startup.{
  new_publisher, setup_type, setup_topics, begin_current, first_value, first_values, init_current,
  take_page, go_ahead, start_publisher,
}
use ros_bridge.Publisher.Checks.{init_current-first_values}
use ros_bridge.Publisher.Values.{last_text, init_current-values}
use ros_bridge.Publisher.Started.{IsLaunched, start_publisher-IsLaunched}
use ros_bridge.Tests.Data.{element, document}

-- The configuration of bridge_publisher_config.yaml, with one topic and two of its data items.
abbrev config : Config Types
config =
    ("url", line "localhost")
    ∷ ("url_port", count 5000)
    ∷ ("machine_tool", line "/cnc")
    ∷ ("xml_namespace", line "urn")
    ∷ (
      "CncResponseTopic",
      content (
          (
            "mtconnect_msgs/CncStatus",
            ("DoorState", ("OPEN", "OPEN") ∷ []) ∷ ("ChuckState", ("OPEN", "OPEN") ∷ []) ∷ [],
          )
          ∷ []),
    )
    ∷ []

-- The door is closed, and then open; the agent does not know the chuck.
abbrev page : List Element
page = element "DoorState" "door_state" "CLOSED" ∷ element "DoorState" "door_state" "OPEN" ∷ []

abbrev agent : Agent String
agent = record {
  now = 0;
  attempts = opens ∷ [];
  current = responds 200 (some (document page)) ∷ [];
  sample = λ path. responds 200 path;
}

abbrev packages : Packages (Dict ℤ)
packages = record {
  manifest = λ name. finds tt;
  type_handle = λ name type_name. finds (("door_state", pos 0) ∷ ("chuck_state", pos 0) ∷ []);
}

abbrev set_up : Publisher
set_up = after (setup_topics packages config [] new_publisher)

split_slash_test : split_slash "mtconnect_msgs/CncStatus" ≡ "mtconnect_msgs" ∷ "CncStatus" ∷ []
unfolding split_slash
split_slash_test = refl

init_current-first_values_example :
    init_current page (begin_current set_up)
    ≡ first_values (keys (init_di_dict set_up)) page (begin_current set_up)
init_current-first_values_example = init_current-first_values set_up page

abbrev started : Publisher
started = after (init_current page (begin_current set_up))

init_current-values_example : lookup "DoorState" started.di_current ≡ some (some "OPEN")
unfolding init_current first_values first_value setup_topics setup_type split_slash init_di_dict
    lookup insert member contains split_event find_tokens scan_tokens lower lower_char is_upper
    is_lower islower any_char last_text
init_current-values_example =
    init_current-values set_up started page "DoorState" "door_state" refl refl refl

start_publisher-runs :
    start_publisher packages agent (some config) new_publisher
    ≡ ok (reaches (sample_path "/cnc" "7")) started
unfolding start_publisher go_ahead take_page init_current first_values first_value setup_topics
    setup_type split_slash init_di_dict lookup insert member contains split_event find_tokens
    scan_tokens lower lower_char is_upper is_lower islower any_char require xml_get_response
    read_current await_agent check_connectivity xml_components find_tags
start_publisher-runs = refl

start_publisher-IsLaunched_example :
    (doc : Document) × Shows lacks_socket agent.current (some doc) × IsLaunched doc started
start_publisher-IsLaunched_example =
    start_publisher-IsLaunched packages agent (some config) (sample_path "/cnc" "7") started
      start_publisher-runs
