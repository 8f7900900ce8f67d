-- ===== src/RobotSim/Startup.antt =====
-- The constructor of `RobotSim`, up to its threads: the streams of the machine tool's agent and of
-- the robot's agent. What HTTP meets is a parameter.
use ros_bridge.Base.{
  ℕ, String, Bool, true, false, List, [], ◌∷◌, none, M, ◌>>=◌, ◌>>◌, pure, modify_state,
}
use ros_bridge.Library.Connectivity.{Attempt, check_connectivity}
use ros_bridge.Library.Startup.{
  Reply, xml_get_response, awaited, sample_path, Progress, waits, reaches,
}
use ros_bridge.Library.Xml.{Chunk, xml_components}
use ros_bridge.RobotSim.Defs.{Robot, Side, cnc, arrive}

-- The keys of `self.data_items`.
abbrev pub data_items : List String
data_items = "MaterialLoad" ∷ "MaterialUnload" ∷ []

-- The attributes, with the local variables that `run_actions` begins with.
abbrev pub new_robot : Robot
new_robot = record {
  cnc_queue = [];
  rbt_queue = [];
  cnc_capture = true;
  rbt_capture = true;
  cnc_state = none;
  robot_state = none;
  sequence = none;
  actions = [];
}

-- What an agent answers: the tries to open its page, its current page, and its stream from a path.
pub record Source (A : Type 0) : Type 0 where
  pub now : ℕ
  pub attempts : List Attempt
  pub current : Reply Chunk
  pub sample : String → Reply A

abbrev pub await_source : {S A : Type 0} → Source A → M S Bool
await_source source = awaited (check_connectivity source.now source.attempts)

-- The current page, which is asked for once, and the stream that goes on after it.
unfoldable pub open_stream : {S A : Type 0} → String → Source A → M S A
unfolding xml_get_response sample_path
open_stream path source = do
  body ← xml_get_response source.current
  found ← xml_components body data_items
  xml_get_response (source.sample (sample_path path found.0))

abbrev pub from_cnc : List Chunk → List (Side × Chunk)
from_cnc [] = []
from_cnc (c ∷ cs) = (cnc, c) ∷ from_cnc cs

-- The chunks of the machine tool that arrive before the robot's stream is there are given.
module _ {A : Type 0} (cnc_source rbt_source : Source A) (early : List Chunk) where
  unfoldable pub open_streams : M Robot (Progress (A × A))
  unfolding open_stream arrive
  open_streams = do
    cnc_response ← open_stream "/cnc" cnc_source
    modify_state (arrive (from_cnc early))
    rbt_response ← open_stream "/Robot" rbt_source
    pure (reaches (cnc_response, rbt_response))

  abbrev pub then_open : Bool → M Robot (Progress (A × A))
  then_open false = pure waits
  then_open true = open_streams

  abbrev pub then_await : Bool → M Robot (Progress (A × A))
  then_await false = pure waits
  then_await true = await_source rbt_source >>= then_open

  -- `__init__`; the result is the two streams, once they are there.
  unfoldable pub start_robot : M Robot (Progress (A × A))
  unfolding open_streams check_connectivity
  start_robot = await_source cnc_source >>= then_await
