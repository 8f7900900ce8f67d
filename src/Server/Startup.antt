-- ===== src/Server/Startup.antt =====
-- The constructor of `GenericActionServer`, from the configuration to the stream of the agent.
use ros_bridge.Base.{
  ℕ, String, true, false, List, [], ◌∷◌, if◌then◌else◌, Option, M, ◌>>=◌, ◌>>◌, pure, raise,
  modify_state, type_error,
}
use ros_bridge.Base.Dict.{keys, member}
use ros_bridge.DataItem.Values.{Number}
use ros_bridge.Adapter.Defs.{Sockets, new_adapter}
use ros_bridge.Adapter.Connections.{start}
use ros_bridge.Library.Events.{on_adapter, add_event}
use ros_bridge.Library.Packages.{Actions, imported}
use ros_bridge.Library.Startup.{
  lacks_socket, start_node, Setting, line, count, content, Config, Agent, Progress,
}
use ros_bridge.Library.Xml.{Element}
use ros_bridge.Server.Defs.{Server, on_node, setup_topic_data}
use Prim.Native.String as Text

abbrev pub msg_parameters : List String
msg_parameters = "url" ∷ "url_port" ∷ "machine_tool" ∷ "xml_namespace" ∷ "adapter_port" ∷ []

-- The attributes before the configuration is gone through.
abbrev pub new_server : {N S : Type 0} → ℕ → Server N S
new_server interval = record {
  node = record { adapter = new_adapter interval; di_dict = [] };
  capture_xml = false;
  xml_queue = [];
  server_name = [];
  results = [];
  verdicts = [];
}

-- What a loop over a text goes through.
abbrev pub letters : String → List String
letters Text.[] = []
letters (Text.◌∷◌ c s) = Text.◌∷◌ c Text.[] ∷ letters s

abbrev pub requests_of : {S : Type 0} → Setting (List String) → M S (List String)
requests_of (line s) = pure (letters s)
requests_of (count n) = raise type_error
requests_of (content requests) = pure requests

module _ {N S : Type 0} (packages : Actions) where
  -- A package of the configuration. The names of a dictionary differ, so that each manifest is loaded
  -- once.
  unfoldable pub setup_package : String → Setting (List String) → M (Server N S) (Unit {0})
  unfolding setup_topic_data
  setup_package name setting = do
    imported (packages.manifest name)
    imported (packages.messages name)
    requests ← requests_of setting
    setup_topic_data packages name requests

  -- The outer loop of `setup_topic_data`, over the entries of the configuration.
  unfoldable pub setup_packages : Config (List String) → M (Server N S) (Unit {0})
  unfolding setup_package
  setup_packages [] = pure tt
  setup_packages ((name, setting) ∷ more) = do
    if member name msg_parameters then pure tt else setup_package name setting
    setup_packages more

module _ {N S : Type 0} ⦃n : Number N⦄ ⦃k : Sockets S⦄ where
  -- The data items, and the adapter's start.
  unfoldable pub serve_items : String → M (Server N S) (Unit {0})
  unfolding add_event start
  serve_items time s =
      (do on_node (add_event time (keys s.results) true); on_node (on_adapter (modify_state start)))
        s

  -- `__init__`. The tags are the keys of `action_list`, which are those of the results.
  unfoldable pub start_server :
      {A : Type 0}
      → Actions
      → String
      → Option (Config (List String))
      → Agent A
      → M (Server N S) (Progress (List Element × A))
  unfolding setup_packages serve_items start_node
  start_server packages time data_map agent =
      start_node lacks_socket msg_parameters (setup_packages packages) (serve_items time)
        (λ s. keys s.results) agent data_map
