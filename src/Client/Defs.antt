-- ===== src/Client/Defs.antt =====
-- `GenericActionClient` and `ActionService` of bridge_client.py. One call is taken after another, as
-- the lock of `xml_callback` has it. The goal message of an action, the parsing of floats, the
-- answers of the agent and those of the robot's action server are parameters.
use ros_bridge.Base.{
  ℕ, String, ◌==◌, Bool, true, false, ◌&&◌, List, [], ◌∷◌, ◌++◌, map, if◌then◌else◌, nat_eq, Option,
  none, some, M, Outcome, ok, err, ◌>>=◌, ◌>>◌, pure, raise, or_raise, modify_state, key_error,
  index_error, value_error, type_error, attribute_error, system_exit,
}
use ros_bridge.Base.Dict.{Dict, lookup, insert}
use ros_bridge.DataItem.Values.{Number, text}
use ros_bridge.Adapter.Defs.{Sockets}
use ros_bridge.Library.Tags.{split_event, upper}
use ros_bridge.Library.Goals.{Goal, Goals, set_goal, type_check, goal_type}
use ros_bridge.Library.Events.{Node, action_cb}
use ros_bridge.Library.Xml.{Element, Chunk, find_all, xml_components_goals}

pub record Client (N S F : Type 0) : Type 0 where
  pub node : Node N S
  pub handshake : Option String
  -- The tag of the goal of each action, and the goals.
  pub action_list : Dict String
  pub action_goals : Goals F
  -- The goals that have been sent to action servers.
  pub launched : List (String × List (String × Goal F))

-- What the client meets outside.
pub record Outside (F : Type 0) : Type 0 where
  pub parse_float : String → Option F
  -- The attributes of the goal message of an action with their types.
  pub slots : String → Option (List (String × String))
  -- The agent's answer for the tag of a goal.
  pub current : String → Chunk
  -- The state that the action server ends a goal with.
  pub result : String → List (String × Goal F) → ℕ

-- `zip(slots, goals)`: the shorter of the two decides.
abbrev pub zip_slots : {A B : Type 0} → List A → List B → List (A × B)
zip_slots [] ys = []
zip_slots (x ∷ xs) [] = []
zip_slots (x ∷ xs) (y ∷ ys) = (x, y) ∷ zip_slots xs ys

module _ {N S F A : Type 0} where
  abbrev lift_node : Client N S F → Outcome (Node N S) A → Outcome (Client N S F) A
  lift_node c (ok x d) = ok x (record c { node = d })
  lift_node c (err e d) = err e (record c { node = d })

  abbrev pub on_node : M (Node N S) A → M (Client N S F) A
  on_node m c = lift_node c (m c.node)

  abbrev lift_goals : Client N S F → Outcome (Goals F) A → Outcome (Client N S F) A
  lift_goals c (ok x g) = ok x (record c { action_goals = g })
  lift_goals c (err e g) = err e (record c { action_goals = g })

  abbrev pub on_goals : M (Goals F) A → M (Client N S F) A
  on_goals m c = lift_goals c (m c.action_goals)

abbrev enter : {F : Type 0} → String → Goals F → Goals F
enter action none = none
enter action (some g) = some (insert action none g)

module _ {N S F : Type 0} where
  -- `self.action_list[action_req]` and `self.action_goals[action_req]` of `setup_topic_data`.
  unfoldable pub setup_topic_data : List (String × String) → Client N S F → Client N S F
  setup_topic_data [] c = c
  setup_topic_data ((action, goal_tag) ∷ actions) c = setup_topic_data actions (record c {
    action_list = insert action goal_tag c.action_list;
    action_goals = enter action c.action_goals;
  })

  -- `self.action_goals[name]`.
  unfoldable pub stored_goal : String → M (Client N S F) (Option (List (Goal F)))
  stored_goal name c = elim c.action_goals [
    | none ↦ err type_error c
    | some g ↦ or_raise (lookup name g) key_error c
  ]

  -- The check of the goal's types; a goal of the wrong type ends the process.
  unfoldable pub check_types : List ((String × String) × Goal F) → M (Client N S F) (Unit {0})
  check_types [] = pure tt
  check_types (((attr, ros_type), goal) ∷ rest) = do
    fits ← or_raise (type_check ros_type (goal_type goal)) key_error
    if fits then check_types rest else raise system_exit

abbrev pub message : {F : Type 0} → List ((String × String) × Goal F) → List (String × Goal F)
message [] = []
message (((attr, ros_type), goal) ∷ rest) = (attr, goal) ∷ message rest

abbrev pub says : String → Element → Bool
says state e = elim e.text [ none ↦ false | some t ↦ t == state ]

abbrev pub rest_of : List Element → List Element
rest_of [] = []
rest_of (e ∷ es) = es

-- The flag of a service request: -1 is NOT_READY and 0 is READY; for any other the callback returns
-- None.
pub data StateFlag : Type 0 where
  not_ready ready other : StateFlag

abbrev texts : List Element → List (Option String)
texts = map λ e. e.text

module _ {N S F : Type 0} ⦃n : Number N⦄ ⦃k : Sockets S⦄ where
  -- The end of `action_client`: the state of the goal is told to the machine tool. A state other
  -- than SUCCEEDED and ABORTED is told to nobody.
  unfoldable pub report_result : String → String → String → ℕ → M (Client N S F) (Option String)
  report_result time name data_item result =
      let complete = (do on_node (action_cb time data_item (text "COMPLETE")); pure (some name)) in
      let fail = (do on_node (action_cb time data_item (text "FAIL")); pure none) in
      if nat_eq result 3 then complete else if nat_eq result 4 then fail else pure none

  abbrev pub names_ok : List Element → M (Client N S F) (Unit {0})
  names_ok [] = pure tt
  names_ok (e ∷ es) = do name ← or_raise e.name key_error; names_ok es

  -- The loop that completes a handshake, with the elements that it leaves. An element is removed
  -- from the list while the list is iterated, so that the one after it is not looked at.
  unfoldable pub shake : String → String → List Element → M (Client N S F) (List Element)
  shake time h [] = pure []
  shake time h (e ∷ es) =
      let hit = λ (name : String). (do
        on_node (action_cb time name (text "READY"))
        modify_state (λ c. record c { handshake = none })
        names_ok (rest_of es)
        pure es) in
      let miss = (do kept ← shake time h es; pure (e ∷ kept)) in
      do name ← or_raise e.name key_error; if (h == name) && says "READY" e then hit name else miss

  abbrev pub shake_if : String → Option String → List Element → M (Client N S F) (List Element)
  shake_if time none es = pure es
  shake_if time (some h) es = if h == "" then pure es else shake time h es

module _ {N S F : Type 0} ⦃n : Number N⦄ ⦃k : Sockets S⦄ (o : Outside F) where
  -- The goal is asked for at the agent, if none is stored. Where the agent has none either,
  -- `self.action_goals` is overwritten by None.
  unfoldable pub ask_goal : String → M (Client N S F) (Unit {0})
  ask_goal name c =
      (do
        goal_tag ← or_raise (lookup name c.action_list) key_error
        doc ← or_raise (o.current (upper goal_tag)) value_error
        found ← on_goals (set_goal o.parse_float name (texts (find_all goal_tag doc.elements)))
        modify_state (λ d. if found then d else record d { action_goals = none }))
        c

  abbrev ask_if_none : String → Option (List (Goal F)) → M (Client N S F) (Unit {0})
  ask_if_none name none = ask_goal name
  ask_if_none name (some g) = pure tt

  unfoldable pub get_goal : String → M (Client N S F) (List (Goal F))
  unfolding stored_goal
  get_goal name = do
    stored ← stored_goal name
    ask_if_none name stored
    goal ← stored_goal name
    or_raise goal type_error

  -- `action_client`. The call that should follow the goal's acceptance is made before the goal is
  -- sent. The result is the new `self.handshake`.
  unfoldable pub action_client : String → String → M (Client N S F) (Option String)
  action_client time name = do
    slots ← or_raise (o.slots name) attribute_error
    goal ← get_goal name
    check_types (zip_slots slots goal)
    data_item ← or_raise (split_event name) index_error
    on_node (action_cb time data_item (text "ACTIVE"))
    let sent = message (zip_slots slots goal)
    modify_state (λ c. record c { launched = c.launched ++ (name, sent) ∷ [] })
    report_result time name data_item (o.result name sent)

  -- The loop over the requests of the machine tool.
  unfoldable pub launch : String → List Element → M (Client N S F) (Unit {0})
  unfolding stored_goal
  launch time [] = pure tt
  launch time (e ∷ es) =
      let start = (do
        goals ← stored_goal e.tag
        handshake ← action_client time e.tag
        modify_state (λ c. record c { handshake = handshake })
        launch time es) in
      let skip = launch time es in if says "ACTIVE" e then start else skip

  -- The body of `xml_callback`.
  unfoldable pub process_chunk : String → Chunk → M (Client N S F) (Unit {0})
  process_chunk time chunk c =
      (do
        found ← on_goals (xml_components_goals o.parse_float chunk c.action_list)
        kept ← shake_if time c.handshake found.1
        launch time kept)
        c

  -- Every exception but the one that ends the process is caught.
  abbrev caught : Outcome (Client N S F) (Unit {0}) → Outcome (Client N S F) (Unit {0})
  caught (ok x c) = ok x c
  caught (err system_exit c) = err system_exit c
  caught (err e c) = ok tt c

  unfoldable pub xml_callback : String → Chunk → M (Client N S F) (Unit {0})
  xml_callback time chunk c = caught (process_chunk time chunk c)

module _ {N S F : Type 0} ⦃n : Number N⦄ ⦃k : Sockets S⦄ where
  abbrev answered : Outcome (Client N S F) (Unit {0}) → Outcome (Client N S F) (Option Bool)
  answered (ok x c) = ok (some true) c
  answered (err e c) = ok (some false) c

  -- `robot_state_callback` of `ActionService`, for the service of an action.
  unfoldable pub robot_state_callback : String → String → StateFlag → M (Client N S F) (Option Bool)
  robot_state_callback time as_name not_ready c =
      answered (on_node (action_cb time as_name (text "NOT_READY")) c)
  robot_state_callback time as_name ready c =
      answered (on_node (action_cb time as_name (text "READY")) c)
  robot_state_callback time as_name other c = ok none c
