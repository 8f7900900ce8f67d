-- ===== src/Publisher/Startup.antt =====
-- The constructor of `BridgePublisher`, from the configuration to the stream of the agent. What the
-- ROS packages are, and which classes of messages they have, are a parameter.
use ros_bridge.Base.{
  ℤ, String, Bool, true, false, List, [], ◌∷◌, ◌++◌, if◌then◌else◌, every, Option, none, some, M,
  ok, ◌>>=◌, ◌>>◌, pure, raise, or_raise, modify_state, key_error, index_error, type_error,
  attribute_error, system_exit, ◌==◌,
}
use ros_bridge.Base.Dict.{Dict, insert, keys, member, contains}
use ros_bridge.Library.Startup.{
  lacks_socket, Setting, line, count, content, Config, require, machine_tool, read_current,
  xml_get_response, sample_path, await_agent, Agent, Progress, waits, reaches,
}
use ros_bridge.Library.Packages.{
  Packages, Types, imported, split_slash, two_tokens, first_type, load,
}
use ros_bridge.Library.Tags.{split_event}
use ros_bridge.Library.Xml.{Element, Chunk, xml_components}
use ros_bridge.Publisher.Defs.{Publisher, all_items, init_di_dict}

abbrev pub msg_parameters : List String
msg_parameters = "url" ∷ "url_port" ∷ "machine_tool" ∷ "xml_namespace" ∷ []

-- The attributes before the configuration is gone through.
abbrev pub new_publisher : Publisher
new_publisher = record {
  topics = [];
  msgs = [];
  di_current = [];
  di_changed = none;
  xml_queue = [];
  unfinished = 0;
  data_hold = none;
  published = [];
}

abbrev pub enter : String → Dict (Dict String) → Dict ℤ → Publisher → Publisher
enter topic_name conversion message p = record p {
  topics = p.topics ++ record { name = topic_name; conversion = conversion } ∷ [];
  msgs = insert topic_name message p.msgs;
}

module _ (packages : Packages (Dict ℤ)) where
  unfoldable pub setup_type :
      String → List String → String × Dict (Dict String) → M Publisher (List String)
  unfolding split_slash
  setup_type topic_name manifests (tn, conversion) = do
    tokens ← or_raise (two_tokens (split_slash tn)) index_error
    loaded ← load packages tokens.0 manifests
    message ← imported (packages.type_handle tokens.0 tokens.1)
    modify_state (enter topic_name conversion message)
    pure loaded

  -- A round of the loop of `setup_topic_data`, for a name that is no parameter.
  abbrev pub setup_topic : String → List String → Setting Types → M Publisher (List String)
  setup_topic topic_name manifests (line s) = raise attribute_error
  setup_topic topic_name manifests (count n) = raise attribute_error
  setup_topic topic_name manifests (content types) =
      or_raise (first_type types) index_error >>= setup_type topic_name manifests

  unfoldable pub setup_topics : Config Types → List String → M Publisher (Unit {0})
  unfolding setup_type
  setup_topics [] manifests = pure tt
  setup_topics ((topic_name, setting) ∷ more) manifests = do
    loaded ←
        if member topic_name msg_parameters
        then pure manifests
        else setup_topic topic_name manifests setting
    setup_topics more loaded

abbrev pub begin_current : Publisher → Publisher
begin_current q = record q { di_current = init_di_dict q; di_changed = none }

abbrev pub take_value : String → Bool → Option String → Publisher → Publisher
take_value d true text p = record p { di_current = insert d text p.di_current }
take_value d false text p = p

-- The first values, from the agent's current elements, for one data item after another: the last
-- element with its name decides.
unfoldable pub first_value : String → String → List Element → M Publisher (Unit {0})
first_value d di_name [] = pure tt
first_value d di_name (e ∷ es) = do
  name ← or_raise e.name key_error
  modify_state (take_value d (di_name == name) e.text)
  first_value d di_name es

unfoldable pub first_values : List String → List Element → M Publisher (Unit {0})
unfolding first_value
first_values [] es = pure tt
first_values (d ∷ ds) es = do
  di_name ← or_raise (split_event d) index_error
  first_value d di_name es
  first_values ds es

abbrev pub all_known : Publisher → Bool
all_known q = every (λ d. contains d q.di_current) (all_items q.topics)

-- The check of the data items: one that is no key ends the process.
abbrev pub confirm : M Publisher (Unit {0})
confirm q = (if all_known q then pure tt else raise system_exit) q

unfoldable pub init_current : List Element → M Publisher (Unit {0})
unfolding first_values
init_current es p = (first_values (keys p.di_current) es >> confirm) p

module _ {A : Type 0} (agent : Agent A) (mtool : String) where
  -- The values of the page, and the stream that goes on after it.
  unfoldable pub take_page : Option Chunk → M Publisher (Progress A)
  unfolding init_current sample_path xml_get_response
  take_page none p = ok waits p
  take_page (some chunk) p =
      (do
        found ← xml_components chunk (keys p.di_current)
        init_current found.1
        stream ← xml_get_response (agent.sample (sample_path mtool found.0))
        pure (reaches stream))
        p

module _ {A : Type 0} (packages : Packages (Dict ℤ)) (agent : Agent A) where
  -- The constructor once the agent is there.
  unfoldable pub go_ahead : Config Types → Bool → M Publisher (Progress A)
  unfolding take_page setup_topics read_current
  go_ahead config false = pure waits
  go_ahead config true = do
    setup_topics packages config []
    modify_state begin_current
    mtool ← machine_tool config
    page ← read_current lacks_socket agent.current
    take_page agent mtool page

  -- `__init__`, for what `obtain_dataMap` has returned, up to the stream.
  unfoldable pub start_publisher : Option (Config Types) → M Publisher (Progress A)
  unfolding go_ahead require await_agent
  start_publisher data_map = do
    config ← or_raise data_map type_error
    require msg_parameters config
    there ← await_agent agent
    go_ahead config there
