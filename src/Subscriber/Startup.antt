-- ===== src/Subscriber/Startup.antt =====
-- The constructor of `BridgeSubscriber`, from the configuration until all topics are subscribed.
use ros_bridge.Base.{
  ℕ, String, false, List, [], ◌∷◌, ◌++◌, if◌then◌else◌, Option, M, Outcome, ok, err, ◌>>=◌, ◌>>◌,
  pure, raise, or_raise, modify_state, index_error, type_error, attribute_error,
}
use ros_bridge.Base.Dict.{Dict, keys, member}
use ros_bridge.DataItem.Values.{Number}
use ros_bridge.Adapter.Defs.{Sockets, new_adapter}
use ros_bridge.Adapter.Connections.{start}
use ros_bridge.Library.Events.{Node, on_adapter, add_event}
use ros_bridge.Library.Packages.{
  Packages, Types, imported, split_slash, two_tokens, first_type, load,
}
use ros_bridge.Library.Startup.{
  Setting, line, count, content, Config, require, Progress, waits, reaches,
}
use ros_bridge.Subscriber.Defs.{Member, Topic, subscribe}

abbrev pub msg_parameters : List String
msg_parameters = "url" ∷ "adapter_port" ∷ []

-- A topic is entered in one step, when its class has been found.
pub record Subscriber (N S : Type 0) : Type 0 where
  pub node : Node N S
  pub topics : List Topic

abbrev pub topic_names : List Topic → List String
topic_names [] = []
topic_names (t ∷ ts) = t.name ∷ topic_names ts

-- The attributes before the configuration is gone through.
abbrev pub new_subscriber : {N S : Type 0} → ℕ → Subscriber N S
new_subscriber interval = record {
  node = record { adapter = new_adapter interval; di_dict = [] };
  topics = [];
}

module _ {N S A : Type 0} where
  abbrev lift_node : Subscriber N S → Outcome (Node N S) A → Outcome (Subscriber N S) A
  lift_node s (ok x d) = ok x (record s { node = d })
  lift_node s (err e d) = err e (record s { node = d })

  abbrev pub on_node : M (Node N S) A → M (Subscriber N S) A
  on_node m s = lift_node s (m s.node)

abbrev pub enter : {N S : Type 0} → Topic → Subscriber N S → Subscriber N S
enter t s = record s { topics = s.topics ++ t ∷ [] }

module _ {N S : Type 0} ⦃n : Number N⦄ ⦃k : Sockets S⦄ (packages : Packages (List Member))
    (time : String) where
  -- The class of a topic, and its entry.
  unfoldable pub find_class :
      String → List String → String × Dict (Dict String) → M (Subscriber N S) (List String)
  unfolding split_slash
  find_class topic manifests (type_key, items) = do
    tokens ← or_raise (two_tokens (split_slash type_key)) index_error
    loaded ← load packages tokens.0 manifests
    members ← imported (packages.type_handle tokens.0 tokens.1)
    modify_state (enter (record { name = topic; items = items; members = members }))
    pure loaded

  -- An event for each data item of the topic's type, and its class.
  unfoldable pub setup_type :
      String → List String → String × Dict (Dict String) → M (Subscriber N S) (List String)
  unfolding find_class add_event
  setup_type topic manifests t = do
    on_node (add_event time (keys t.1) false)
    find_class topic manifests t

  -- A round of the loop of `setup_topic_data`, for a name that is no parameter.
  abbrev pub setup_topic : String → List String → Setting Types → M (Subscriber N S) (List String)
  setup_topic topic manifests (line s) = raise attribute_error
  setup_topic topic manifests (count m) = raise attribute_error
  setup_topic topic manifests (content types) =
      or_raise (first_type types) index_error >>= setup_type topic manifests

  abbrev pub setup_entry : String → List String → Setting Types → M (Subscriber N S) (List String)
  setup_entry name manifests setting =
      if member name msg_parameters then pure manifests else setup_topic name manifests setting

  unfoldable pub setup_topics : Config Types → List String → M (Subscriber N S) (Unit {0})
  unfolding setup_type
  setup_topics [] manifests = pure tt
  setup_topics ((name, setting) ∷ more) manifests = do
    loaded ← setup_entry name manifests setting
    setup_topics more loaded

abbrev pub subscribed_all : List String × List String → Progress (List String)
subscribed_all ([], subscribed) = reaches subscribed
subscribed_all (left, subscribed) = waits

-- The loop over the topics, for what is published at its passes; the result is the topics in the
-- order in which they are subscribed, once no topic is left.
unfoldable pub listen :
    {N S : Type 0} → List (List String) → M (Subscriber N S) (Progress (List String))
unfolding subscribe
listen passes s = ok (subscribed_all (subscribe passes (topic_names s.topics))) s

module _ {N S : Type 0} ⦃n : Number N⦄ ⦃k : Sockets S⦄ (packages : Packages (List Member))
    (time : String) where
  -- `__init__`, for what `obtain_dataMap` has returned.
  unfoldable pub start_subscriber :
      Option (Config Types) → List (List String) → M (Subscriber N S) (Progress (List String))
  unfolding setup_topics require listen start
  start_subscriber data_map passes = do
    config ← or_raise data_map type_error
    require msg_parameters config
    setup_topics packages time config []
    on_node (on_adapter (modify_state start))
    listen passes
