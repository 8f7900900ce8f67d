-- ===== src/Server/Defs.antt =====
-- `GenericActionServer` of bridge_server.py, for one goal at a time. What the other threads do is in
-- the order of the ticks: a chunk arrives at `xml_callback`, or the loop of `execute_cb` polls.
use ros_bridge.Base.{
  ℕ, String, ◌==◌, Bool, true, false, ◌&&◌, List, [], ◌∷◌, ◌++◌, map, if◌then◌else◌, nat_eq, Option,
  none, some, M, Outcome, ok, err, ◌>>=◌, ◌>>◌, pure, raise, or_raise, modify_state, key_error,
  index_error, value_error,
}
use ros_bridge.Base.Dict.{Dict, lookup, insert, contains}
use ros_bridge.DataItem.Values.{Number, ◌+++◌, text}
use ros_bridge.Adapter.Defs.{Sockets}
use ros_bridge.Library.Packages.{Actions, imported}
use ros_bridge.Library.Startup.{Reply, xml_get_response}
use ros_bridge.Library.Tags.{find_tokens, split_event, upper}
use ros_bridge.Library.Events.{Node, action_cb}
use ros_bridge.Library.Xml.{Element, Chunk, find_all, xml_components}

-- The calls of `set_succeeded` and `set_aborted` with their results, in the order in which the code
-- makes them. What actionlib does with one for a goal that has ended is not part of the model.
pub data Verdict : Type 0 where
  succeeded aborted : String → Verdict

pub record Server (N S : Type 0) : Type 0 where
  pub node : Node N S
  pub capture_xml : Bool
  pub xml_queue : List Chunk
  -- The request of each data item, and the attribute of each request's result.
  pub server_name : Dict String
  pub results : Dict (Option String)
  pub verdicts : List Verdict

-- `execute_cb` under way, with its local variables.
pub record Session (N S : Type 0) : Type 0 where
  pub server : Server N S
  pub open server use *
  pub robot_hold : ℕ
  pub dwell : Bool

abbrev lift_node : {N S A : Type 0} → Server N S → Outcome (Node N S) A → Outcome (Server N S) A
lift_node s (ok x d) = ok x (record s { node = d })
lift_node s (err e d) = err e (record s { node = d })

abbrev pub on_node : {N S A : Type 0} → M (Node N S) A → M (Server N S) A
on_node m s = lift_node s (m s.node)

abbrev lift_server :
    {N S A : Type 0} → Session N S → Outcome (Server N S) A → Outcome (Session N S) A
lift_server t (ok x s) = ok x (record t { server = s })
lift_server t (err e s) = err e (record t { server = s })

abbrev pub on_server : {N S A : Type 0} → M (Server N S) A → M (Session N S) A
on_server m t = lift_server t (m t.server)

-- The tag of a request as the agent's path wants it: `OPEN_DOOR` for `OpenDoor`.
abbrev tag_of : List String → Option String
tag_of [] = none
tag_of (s ∷ []) = none
tag_of (s ∷ t ∷ r) = some (s +++ "_" +++ t)

unfoldable pub path_tag : String → Option String
path_tag request = tag_of (map upper (find_tokens request))

module _ {N S : Type 0} where
  -- The entries that `setup_topic_data` makes for the requests of the configuration.
  -- A request is entered in one step, when its two classes have been found.
  unfoldable pub setup_topic_data : Actions → String → List String → M (Server N S) (Unit {0})
  setup_topic_data packages package_name [] = pure tt
  setup_topic_data packages package_name (request ∷ requests) = do
    di_conv ← or_raise (split_event request) index_error
    imported (packages.class_of package_name (request +++ "Result"))
    imported (packages.class_of package_name (request +++ "Action"))
    modify_state (λ s. record s {
      server_name = insert di_conv request s.server_name;
      results = insert request none s.results;
    })
    setup_topic_data packages package_name requests

  -- `setattr` of the result's attribute, and the call that answers.
  unfoldable pub answer : String → String → (String → Verdict) → M (Server N S) (Unit {0})
  answer request result verdict s =
      if contains request s.results
      then ok tt (record s {
        results = insert request (some result) s.results;
        verdicts = s.verdicts ++ verdict result ∷ [];
      })
      else err key_error s

  unfoldable pub xml_callback : Chunk → M (Server N S) (Unit {0})
  xml_callback chunk s =
      ok tt (if s.capture_xml then record s { xml_queue = s.xml_queue ++ chunk ∷ [] } else s)

  -- `dwell = False` and `self.capture_xml = False`.
  abbrev stop_capture : M (Session N S) (Unit {0})
  stop_capture =
      modify_state λ t. record t { dwell = false; server = record t.server { capture_xml = false } }

abbrev is_ready : Option String → Bool
is_ready none = false
is_ready (some state) = state == "READY"

abbrev leave : {N S : Type 0} → Outcome (Session N S) (Unit {0}) → Outcome (Server N S) Bool
leave (ok x t) = ok t.dwell t.server
leave (err e t) = err e t.server

-- What happens while `execute_cb` waits. `time` is the adapter's time of the poll.
pub data Tick : Type 0 where
  arrives : Chunk → Tick
  polls : String → Tick

module _ {N S : Type 0} ⦃n : Number N⦄ ⦃k : Sockets S⦄ where
  -- One round of the loop over the elements of the request's tag.
  unfoldable pub react : String → String → String → Option String → M (Session N S) (Unit {0})
  unfolding answer
  react time action request none t = ok tt t
  react time action request (some state) t =
      let complete =
        (do
          on_server (on_node (action_cb time action (text "READY")))
          modify_state (λ u. record u { robot_hold = 1 }))
          t in
      let ready = (do stop_capture; on_server (answer request "READY" succeeded)) t in
      let fail =
        (do
          on_server (on_node (action_cb time action (text "FAIL")))
          stop_capture
          on_server (answer request "FAIL" aborted))
          t in
      if state == "ACTIVE"
      then ok tt t
      else if (state == "COMPLETE") && nat_eq t.robot_hold 0
      then complete
      else if (state == "READY") && nat_eq t.robot_hold 1
      then ready
      else if state == "FAIL"
      then fail
      else ok tt t

  unfoldable pub react_all : String → String → String → List Element → M (Session N S) (Unit {0})
  react_all time action request [] = pure tt
  react_all time action request (e ∷ es) = do
    react time action request e.text
    react_all time action request es

  abbrev read_chunk : String → String → String → Chunk → M (Session N S) (Unit {0})
  read_chunk time action request chunk = do
    doc ← or_raise chunk value_error
    react_all time action request (find_all request doc.elements)

  -- One pass of the loop `while dwell`: a chunk is taken from the queue, if there is one.
  unfoldable pub poll : String → String → String → M (Session N S) (Unit {0})
  poll time action request t = elim t.xml_queue [
    | [] ↦ ok tt t
    | chunk ∷ queue ↦
        read_chunk time action request chunk
          (record t { server = record t.server { xml_queue = queue } })
  ]

  unfoldable pub tick : String → String → Tick → M (Session N S) (Unit {0})
  tick action request (arrives chunk) t = on_server (xml_callback chunk) t
  tick action request (polls time) t =
      let round = poll time action request t in if t.dwell then round else ok tt t

  unfoldable pub run : String → String → List Tick → M (Session N S) (Unit {0})
  run action request [] = pure tt
  run action request (x ∷ xs) = do tick action request x; run action request xs

  abbrev first_text : List Element → M (Server N S) (Option String)
  first_text [] = raise index_error
  first_text (e ∷ es) = pure e.text

  -- `execute_cb` up to its loop: the request goes out if the machine tool is READY, and else the
  -- goal is aborted. `current` is what a request for a tag meets; the result says whether to
  -- wait.
  unfoldable pub begin_action :
      String → (String → Reply Chunk) → String → String → M (Server N S) Bool
  unfolding answer xml_get_response
  begin_action time current action request = do
    di_tag ← or_raise (path_tag request) index_error
    body ← xml_get_response (current di_tag)
    found ← xml_components body (request ∷ [])
    state ← first_text found.1
    let request_it = (do
      on_node (action_cb time action (text "ACTIVE"))
      modify_state (λ s. record s { capture_xml = true })
      pure true)
    let refuse = (do answer request "NOT_READY" aborted; pure false)
    (if is_ready state then request_it else refuse)

  -- The loop of `execute_cb`, with what happens around it.
  abbrev wait_for : String → String → List Tick → Bool → M (Server N S) Bool
  wait_for action request ticks false s = ok false s
  wait_for action request ticks true s =
      leave (run action request ticks (record { server = s; robot_hold = 0; dwell = true }))

  -- `execute_cb`. The result is true if it still waits after the ticks.
  unfoldable pub execute_cb :
      String → (String → Reply Chunk) → String → List Tick → M (Server N S) Bool
  unfolding begin_action
  execute_cb time current action ticks s =
      (do
        request ← or_raise (lookup action s.server_name) key_error
        waits ← begin_action time current action request
        wait_for action request ticks waits)
        s
