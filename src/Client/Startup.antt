-- ===== src/Client/Startup.antt =====
-- The constructor of `GenericActionClient`, from the configuration to the stream of the agent. The
-- services of its actions, which are threads of their own, are `robot_state_callback`.
use ros_bridge.Base.{
  ℕ, String, false, List, [], ◌∷◌, if◌then◌else◌, Option, none, some, M, ◌>>=◌, ◌>>◌, pure, raise,
  or_raise, modify_state, index_error, attribute_error,
}
use ros_bridge.Base.Dict.{Dict, keys, member}
use ros_bridge.DataItem.Values.{Number}
use ros_bridge.Adapter.Defs.{Sockets, new_adapter}
use ros_bridge.Adapter.Connections.{start}
use ros_bridge.Library.Events.{on_adapter, add_event}
use ros_bridge.Library.Startup.{
  imports_socket, Setting, line, count, content, Config, Agent, Progress, start_node,
}
use ros_bridge.Library.Xml.{Element}
use ros_bridge.Client.Defs.{Client, on_node, setup_topic_data}

abbrev pub msg_parameters : List String
msg_parameters =
    "url" ∷ "url_port" ∷ "machine_tool" ∷ "xml_namespace" ∷ "adapter_port" ∷ "service" ∷ []

-- The attributes before the configuration is gone through.
abbrev pub new_client : {N S F : Type 0} → ℕ → Client N S F
new_client interval = record {
  node = record { adapter = new_adapter interval; di_dict = [] };
  handshake = none;
  action_list = [];
  action_goals = some [];
  launched = [];
}

abbrev pub first_key : List String → Option String
first_key [] = none
first_key (tag ∷ tags) = some tag

module _ {N S F : Type 0} where
  -- The actions of a package, each with the tags of its goals, of which the first is taken.
  unfoldable pub setup_actions : Dict (List String) → M (Client N S F) (Unit {0})
  unfolding setup_topic_data
  setup_actions [] = pure tt
  setup_actions ((action, tags) ∷ more) = do
    goal_tag ← or_raise (first_key tags) index_error
    modify_state (setup_topic_data ((action, goal_tag) ∷ []))
    setup_actions more

  abbrev pub setup_package : Setting (Dict (List String)) → M (Client N S F) (Unit {0})
  setup_package (line s) = raise attribute_error
  setup_package (count n) = raise attribute_error
  setup_package (content actions) = setup_actions actions

  -- The loop of `setup_topic_data` over the entries of the configuration.
  unfoldable pub setup_packages : Config (Dict (List String)) → M (Client N S F) (Unit {0})
  unfolding setup_actions
  setup_packages [] = pure tt
  setup_packages ((name, setting) ∷ more) = do
    if member name msg_parameters then pure tt else setup_package setting
    setup_packages more

module _ {N S F : Type 0} ⦃n : Number N⦄ ⦃k : Sockets S⦄ where
  -- The data items, and the adapter's start.
  unfoldable pub serve_items : String → M (Client N S F) (Unit {0})
  unfolding add_event start
  serve_items time c =
      (do
        on_node (add_event time (keys c.action_list) false)
        on_node (on_adapter (modify_state start)))
        c

  unfoldable pub start_client :
      {A : Type 0}
      → String
      → Option (Config (Dict (List String)))
      → Agent A
      → M (Client N S F) (Progress (List Element × A))
  unfolding setup_packages serve_items start_node
  start_client time data_map agent =
      start_node imports_socket msg_parameters setup_packages (serve_items time)
        (λ c. keys c.action_list) agent data_map
