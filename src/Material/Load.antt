-- ===== src/Material/Load.antt =====
-- `MaterialLoadServer` of material_load_server.py. Times are in milliseconds; what is only printed
-- is left out.
use ros_bridge.Base.{
  ℕ, ◌+◌, String, Bool, false, ◌&&◌, List, [], ◌∷◌, ◌++◌, if◌then◌else◌, nat_eq, ltb, Option, none,
  some, ℤ, pos, int_eq,
}

pub data Verdict : Type 0 where
  succeeded aborted : String → Verdict

pub record Server : Type 0 where
  pub door_state : Option ℤ
  pub chuck_state : Option ℤ
  pub close_door : Option ℤ
  pub counter : ℕ
  pub load_state : Option String
  pub verdicts : List Verdict

-- `__init__`.
unfoldable pub new_server : Server
new_server = record {
  door_state = none;
  chuck_state = none;
  close_door = none;
  counter = 1;
  load_state = none;
  verdicts = [];
}

-- The values of a message of the topic CncResponseTopic.
pub record CncStatus : Type 0 where
  pub door : ℤ
  pub chuck : ℤ
  pub request : ℤ

unfoldable pub topic_callback : CncStatus → Server → Server
topic_callback m s = record s {
  door_state = some m.door;
  chuck_state = some m.chuck;
  close_door = some m.request;
}

-- `state == v`, where None is no number.
abbrev pub is_state : ℤ → Option ℤ → Bool
is_state v none = false
is_state v (some w) = int_eq w v

-- How a pass of the loop ends: it goes on, it returns, or `sys.exit` ends the thread of the action
-- server that runs it.
pub data Pass : Type 0 where
  waits returned exited : Server → Pass

abbrev finish : String → (String → Verdict) → Server → Pass
finish state verdict s = returned (record s {
  load_state = some state;
  counter = s.counter + 1;
  verdicts = s.verdicts ++ verdict state ∷ [];
})

abbrev pub all_closed : Server → Bool
all_closed s =
    is_state (pos 1) s.door_state && is_state (pos 1) s.chuck_state && is_state (pos 1) s.close_door

abbrev pub time_limit : ℕ
time_limit = 120000

-- One pass of the loop of `execute_cb`, at a time.
unfoldable pub pass : ℕ → ℕ → Server → Pass
pass start now s =
    if all_closed s && ltb s.counter 25
    then finish "COMPLETE" succeeded s
    else if all_closed s && nat_eq s.counter 25
    then finish "FAIL" aborted s
    else if ltb (start + time_limit) now
    then exited s
    else waits s

-- What happens while `execute_cb` runs: a message, or a pass of the loop at a time.
pub data Tick : Type 0 where
  message : CncStatus → Tick
  at : ℕ → Tick

-- `execute_cb`, started at a time.
unfoldable pub execute_cb : ℕ → List Tick → Server → Pass
execute_cb start [] s = waits s
execute_cb start (message m ∷ ticks) s = execute_cb start ticks (topic_callback m s)
execute_cb start (at now ∷ ticks) s = elim (pass start now s) [
  | waits t ↦ execute_cb start ticks t
  | returned t ↦ returned t
  | exited t ↦ exited t
]
