-- ===== src/RobotSim/Defs.antt =====
-- `RobotSim` of robot_sim.py: the callbacks of its two streams and the loop of `run_actions`. The
-- chunks that arrive while a pass of the loop waits for an action are given to the pass.
use ros_bridge.Base.{
  String, ◌==◌, Bool, true, false, ◌&&◌, List, [], ◌∷◌, ◌++◌, if◌then◌else◌, Option, none, some,
}
use ros_bridge.Library.Xml.{Element, Document, Chunk, find_all}

-- The goals that the action clients send.
pub data Action : Type 0 where
  open_door close_door open_chuck close_chuck : Action

-- The field of the goal message and its value, which is CLOSED in all four clients.
unfoldable pub goal_of : Action → String × String
goal_of open_door = ("open_door", "CLOSED")
goal_of close_door = ("close_door", "CLOSED")
goal_of open_chuck = ("open_chuck", "CLOSED")
goal_of close_chuck = ("close_chuck", "CLOSED")

pub record Robot : Type 0 where
  pub cnc_queue : List Chunk
  pub rbt_queue : List Chunk
  pub cnc_capture : Bool
  pub rbt_capture : Bool
  -- The local variables of `run_actions`.
  pub cnc_state : Option String
  pub robot_state : Option String
  pub sequence : Option String
  -- The actions that have been run.
  pub actions : List Action

pub data Side : Type 0 where
  cnc rbt : Side

unfoldable pub xml_callback : Side → Chunk → Robot → Robot
xml_callback cnc chunk r =
    if r.cnc_capture then record r { cnc_queue = r.cnc_queue ++ chunk ∷ [] } else r
xml_callback rbt chunk r =
    if r.rbt_capture then record r { rbt_queue = r.rbt_queue ++ chunk ∷ [] } else r

unfoldable pub arrive : List (Side × Chunk) → Robot → Robot
arrive [] r = r
arrive ((side, chunk) ∷ more) r = arrive more (xml_callback side chunk r)

-- `tokens and tokens[0].text == 'ACTIVE'`.
abbrev pub first_active : List Element → Bool
first_active [] = false
first_active (e ∷ es) = elim e.text [ none ↦ false | some t ↦ t == "ACTIVE" ]

abbrev or_else : Option String → String → Option String
or_else none s = some s
or_else (some t) s = some t

-- What a chunk says: the sequence that it starts, if that is so.
unfoldable pub active_tag : Document → Option String
active_tag doc =
    if first_active (find_all "MaterialLoad" doc.elements)
    then some "MaterialLoad"
    else if first_active (find_all "MaterialUnload" doc.elements)
    then some "MaterialUnload"
    else none

-- The state variable of the side is set, and its stream no longer captured.
abbrev activate : Side → String → Robot → Robot
activate cnc tag r = record r {
  sequence = or_else r.sequence tag;
  cnc_state = some "ACTIVE";
  cnc_capture = false;
}
activate rbt tag r = record r {
  sequence = or_else r.sequence tag;
  robot_state = some "ACTIVE";
  rbt_capture = false;
}

abbrev note_chunk : Side → Document → Robot → Robot
note_chunk side doc r = elim (active_tag doc) [ none ↦ r | some tag ↦ activate side tag r ]

-- Each side's queue is looked at once in a pass. `none`: the parser refuses the chunk, and the
-- thread ends.
unfoldable pub read_cnc : Robot → Option Robot
unfolding active_tag
read_cnc r = elim r.cnc_queue [
  | [] ↦ some r
  | none ∷ queue ↦ none
  | some doc ∷ queue ↦ some (note_chunk cnc doc (record r { cnc_queue = queue }))
]

unfoldable pub read_rbt : Robot → Option Robot
unfolding active_tag
read_rbt r = elim r.rbt_queue [
  | [] ↦ some r
  | none ∷ queue ↦ none
  | some doc ∷ queue ↦ some (note_chunk rbt doc (record r { rbt_queue = queue }))
]

abbrev is_text : String → Option String → Bool
is_text s none = false
is_text s (some t) = t == s

abbrev pub both_active : String → Robot → Bool
both_active tag r =
    is_text "ACTIVE" r.cnc_state && is_text "ACTIVE" r.robot_state && is_text tag r.sequence

abbrev do_action : Action → Robot → Robot
do_action a r = record r { actions = r.actions ++ a ∷ [] }

abbrev capture : Robot → Robot
capture r = record r { cnc_capture = true; rbt_capture = true }

abbrev reset : Robot → Robot
reset r = record r { cnc_state = none; robot_state = none; sequence = none }

-- A sequence: the first action, the streams captured again, the second action, while which chunks
-- may arrive, and the reset.
unfoldable pub run_sequence : Action → Action → List (Side × Chunk) → Robot → Robot
run_sequence first second late r =
    reset (arrive late (do_action second (capture (do_action first r))))

unfoldable pub load_step : List (Side × Chunk) → Robot → Robot
load_step late r =
    if both_active "MaterialLoad" r then run_sequence close_chuck close_door late r else r

unfoldable pub unload_step : List (Side × Chunk) → Robot → Robot
unload_step late r =
    if both_active "MaterialUnload" r then run_sequence open_door open_chuck late r else r

-- One pass of the loop of `run_actions`.
unfoldable pub pass : List (Side × Chunk) → Robot → Option Robot
pass late r = elim (read_cnc r) [
  | none ↦ none
  | some s ↦ elim (read_rbt s) [ none ↦ none | some t ↦ some (unload_step late (load_step late t)) ]
]
