-- ===== src/Tests/Starts.antt =====
-- Examples for the start of the nodes.
use ros_bridge.Base.{ℕ, String, ◌≡◌, refl, Bool, List, [], ◌∷◌, some, ok, after}
use ros_bridge.Base.Dict.{Dict, lookup, insert, keys, member}
use ros_bridge.Library.Xml.{Element, find_tags}
use ros_bridge.Library.Tags.{split_event, islower, any_char, is_lower, is_upper}
use ros_bridge.Library.Connectivity.{opens, available, check_connectivity}
use ros_bridge.Library.Startup.{
  imports_socket, Config, line, count, content, Agent, socket_fails, responds, sample_path,
}
use ros_bridge.Library.Packages.{Actions, finds}
use ros_bridge.Server.Defs.{Server}
use ros_bridge.Server.Startup.{msg_parameters}
use ros_bridge.Library.Reaching.{Requires, Answers, start_node-reaches}
use ros_bridge.Client.Defs.{Client}
use ros_bridge.Client.Startup as Client
use ros_bridge.Client.Startup.{start_client}
use ros_bridge.Client.Started.{IsIdle, start_client-IsIdle}
use ros_bridge.Library.Events.{add_events, event_name}
use ros_bridge.Tests.Data.{nat_number, flag_sockets, element, document}

-- The configuration of bridge_server_config.yaml, with two of its actions.
abbrev config : Config (List String)
config =
    ("url", line "localhost")
    ∷ ("url_port", count 5000)
    ∷ ("machine_tool", line "/cnc")
    ∷ ("xml_namespace", line "urn")
    ∷ ("adapter_port", count 7886)
    ∷ ("mtconnect_msgs", content ("OpenDoor" ∷ "CloseDoor" ∷ []))
    ∷ []

-- The agent shows the door.
abbrev page : List Element
page = element "OpenDoor" "door" "READY" ∷ []

abbrev agent : Agent String
agent = record {
  now = 0;
  attempts = opens ∷ [];
  current = responds 200 (some (document page)) ∷ [];
  sample = λ path. responds 200 path;
}

-- The same agent, after a socket error.
abbrev late_agent : Agent String
late_agent = record agent { current = socket_fails ∷ agent.current }

abbrev packages : Actions
packages = record {
  manifest = λ name. finds tt;
  messages = λ name. finds tt;
  class_of = λ name class_name. finds tt;
}

agent-available : check_connectivity agent.now agent.attempts ≡ available
unfolding check_connectivity
agent-available = refl

late_agent-Answers :
    Answers imports_socket late_agent "/cnc" (document page) (sample_path "/cnc" "7")
late_agent-Answers = record {
  seq = "7";
  opens = agent-available;
  page = (1, [], refl);
  header = refl;
  streams = refl;
}

abbrev client_config : Config (Dict (List String))
client_config =
    ("url", line "localhost")
    ∷ ("url_port", count 5000)
    ∷ ("machine_tool", line "/cnc")
    ∷ ("xml_namespace", line "urn")
    ∷ ("adapter_port", count 7882)
    ∷ ("service", line "SetMTConnectState")
    ∷ ("mtconnect_msgs", content (("MaterialLoad", "Material" ∷ []) ∷ []))
    ∷ []

client_config-Requires : Requires Client.msg_parameters client_config
unfolding lookup
client_config-Requires = (
  (line "localhost", refl),
  (
    (count 5000, refl),
    (
      (line "/cnc", refl),
      ((line "urn", refl), ((count 7882, refl), ((line "SetMTConnectState", refl), tt))),
    ),
  ),
)

client_config-machine_tool : lookup "machine_tool" client_config ≡ some (line "/cnc")
unfolding lookup
client_config-machine_tool = refl

abbrev set_up : Client ℕ Bool ℕ
set_up = after (Client.setup_packages client_config (Client.new_client 10000))

set_up-runs : Client.setup_packages client_config (Client.new_client 10000) ≡ ok tt set_up
unfolding Client.setup_packages member insert
set_up-runs = refl

abbrev serving : Client ℕ Bool ℕ
serving = after (Client.serve_items "t" set_up)

serving-runs : Client.serve_items "t" set_up ≡ ok tt serving
unfolding Client.serve_items Client.setup_packages member insert add_events event_name islower
    any_char is_lower is_upper split_event
serving-runs = refl

start_client-IsIdle_example : IsIdle serving
unfolding start_client
start_client-IsIdle_example =
    start_client-IsIdle "t" 10000 (some client_config) late_agent
      (find_tags (keys serving.action_list) page, sample_path "/cnc" "7") serving
      (start_node-reaches imports_socket Client.msg_parameters Client.setup_packages
        (Client.serve_items "t") (λ c. keys c.action_list) late_agent client_config "/cnc"
        (document page) (sample_path "/cnc" "7") (Client.new_client 10000) set_up serving
        client_config-Requires client_config-machine_tool late_agent-Answers set_up-runs
        serving-runs)
