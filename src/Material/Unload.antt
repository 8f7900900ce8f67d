-- ===== src/Material/Unload.antt =====
-- `MaterialUnloadServer` of material_unload_server.py. The loop looks for a timeout also in the pass
-- in which it finds the door and the chuck open, before the goal is answered.
use ros_bridge.Base.{
  ℕ, ◌+◌, String, Bool, ◌&&◌, List, [], ◌∷◌, ◌++◌, if◌then◌else◌, ltb, Option, some, ℤ, pos,
}
use ros_bridge.Material.Load.{
  Verdict, succeeded, CncStatus, is_state, time_limit, Tick, message, at,
}

pub record Server : Type 0 where
  pub door_state : Option ℤ
  pub chuck_state : Option ℤ
  pub open_chuck : Option ℤ
  pub counter : ℕ
  pub unload_state : Option String
  pub verdicts : List Verdict

unfoldable pub topic_callback : CncStatus → Server → Server
topic_callback m s = record s {
  door_state = some m.door;
  chuck_state = some m.chuck;
  open_chuck = some m.request;
}

pub data Pass : Type 0 where
  waits returned exited : Server → Pass

abbrev pub all_open : Server → Bool
all_open s =
    is_state (pos 0) s.door_state && is_state (pos 0) s.chuck_state && is_state (pos 0) s.open_chuck

abbrev complete : Server → Server
complete s = record s { unload_state = some "COMPLETE"; counter = s.counter + 1 }

abbrev answer : Server → Server
answer s = record s { verdicts = s.verdicts ++ succeeded "COMPLETE" ∷ [] }

-- One pass of the loop, with what follows it if the loop ends.
unfoldable pub pass : ℕ → ℕ → Server → Pass
pass start now s =
    let late = ltb (start + time_limit) now in
    if all_open s
    then if late then exited (complete s) else returned (answer (complete s))
    else if late
    then exited s
    else waits s

unfoldable pub execute_cb : ℕ → List Tick → Server → Pass
execute_cb start [] s = waits s
execute_cb start (message m ∷ ticks) s = execute_cb start ticks (topic_callback m s)
execute_cb start (at now ∷ ticks) s = elim (pass start now s) [
  | waits t ↦ execute_cb start ticks t
  | returned t ↦ returned t
  | exited t ↦ exited t
]
