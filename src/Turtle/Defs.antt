-- ===== src/Turtle/Defs.antt =====
-- `BridgeAdapter` of bridge_adapter.py, and bridge.py: the events of the agent's stream and how the
-- program starts.
use ros_bridge.Base.{
  ℕ, String, ◌==◌, Bool, false, not, ◌&&◌, List, [], ◌∷◌, ◌++◌, if◌then◌else◌, nat_eq, Option, none,
  some, M, ◌>>=◌, ◌>>◌, pure, raise, or_raise, modify_state, value_error, socket_error, system_exit,
}
use ros_bridge.DataItem.Values.{Number, text, tuple, ◌+++◌}
use ros_bridge.DataItem.Plain.{new_data_item}
use ros_bridge.DataItem.{event, three_d}
use ros_bridge.Adapter.Defs.{
  Sockets, Adapter, new_adapter, add_data_item, begin_gather, complete_gather,
}
use ros_bridge.Library.Events.{assign}
use ros_bridge.Library.Startup.{Reply, socket_fails, responds}
use ros_bridge.Library.Xml.{Element, Chunk, next_sequence}

module _ {N S : Type 0} ⦃n : Number N⦄ where
  -- `BridgeAdapter.__init__`: the pose is the first object of the adapter, `avail` the second.
  unfoldable pub new_bridge : ℕ → Adapter N S
  unfolding new_adapter add_data_item new_data_item assign
  new_bridge interval = assign 1 (text "AVAILABLE") (
      add_data_item (event (new_data_item "avail"))
        (add_data_item (three_d (new_data_item "pose")) (new_adapter interval)))

module _ {N S : Type 0} ⦃n : Number N⦄ ⦃k : Sockets S⦄ (origin : N) where
  -- `handle_turtle_pose`; `origin` is `0.0`.
  unfoldable pub handle_turtle_pose : String → N → N → M (Adapter N S) (Unit {0})
  unfolding begin_gather complete_gather assign
  handle_turtle_pose time x y = do
    begin_gather
    modify_state (assign 0 (tuple (x ∷ y ∷ origin ∷ [])))
    complete_gather time

-- `msg1` moves the turtle on, and `msg2` turns it.
pub data Velocity : Type 0 where
  linear angular : Velocity

abbrev pub is_active : Option String → Bool
is_active none = false
is_active (some s) = s == "ACTIVE"

-- The loop of `process_xml` over the elements of Events.
unfoldable pub moves : List Element → List Velocity
moves [] = []
moves (e ∷ es) =
    let later = moves es in
    if e.tag == "Execution" && not (is_active e.text) then linear ∷ angular ∷ later else later

-- `process_xml`; the state is what has been published. The elements of a document are those of
-- Events.
unfoldable pub process_xml : Chunk → M (List Velocity) String
unfolding moves
process_xml chunk = do
  doc ← or_raise chunk value_error
  seq ← next_sequence doc.header
  modify_state (λ published. published ++ moves doc.elements)
  pure seq

-- `callback`.
unfoldable pub callback : Chunk → M (List Velocity) (Unit {0})
unfolding process_xml
callback chunk = do seq ← process_xml chunk; pure tt

-- The status of the current page is looked at, that of the stream is not.
abbrev get_current : {S A : Type 0} → Reply A → M S A
get_current socket_fails = raise socket_error
get_current (responds status body) = if nat_eq status 200 then pure body else raise system_exit

abbrev get_stream : {S A : Type 0} → Reply A → M S A
get_stream socket_fails = raise socket_error
get_stream (responds status body) = pure body

-- The program, from the current page to the stream.
unfoldable pub start_bridge : {A : Type 0} → Reply Chunk → (String → Reply A) → M (List Velocity) A
unfolding process_xml
start_bridge current sample = do
  body ← get_current current
  seq ← process_xml body
  get_stream (sample ("/sample?interval=1000&count=1000&from=" +++ seq))

-- The chunks of the stream, one after the other; an exception ends the program.
unfoldable pub serve_chunks : List Chunk → M (List Velocity) (Unit {0})
unfolding callback
serve_chunks [] = pure tt
serve_chunks (chunk ∷ chunks) = do callback chunk; serve_chunks chunks
