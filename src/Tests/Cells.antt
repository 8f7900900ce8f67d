-- ===== src/Tests/Cells.antt =====
-- Examples for the material servers and the simulated robot.
use ros_bridge.Base.{
  ok, String, ◌+◌, ◌≤◌, ◌≡◌, refl, true, false, List, [], ◌∷◌, ◌++◌, some, none, arith, pos, inr,
}
use ros_bridge.Library.Xml.{Document}
use ros_bridge.Material.Load.{
  Server, aborted, CncStatus, Tick, message, at, execute_cb, topic_callback, pass,
}
use ros_bridge.Material.Unload as Unload
use ros_bridge.Material.Cycles.{
  IsDone, execute_cb-IsDone, is_waiting, execute_cb-ends, serve, answers, serve-answers, IsUnloaded,
  unload-IsUnloaded,
}
use ros_bridge.RobotSim.Defs.{
  Robot, cnc, rbt, close_chuck, close_door, xml_callback, arrive, read_cnc, read_rbt, active_tag,
  load_step, unload_step, run_sequence,
}
use ros_bridge.RobotSim.Defs as RobotSim
use ros_bridge.RobotSim.Sequence.{IsHeld, Pairs, nothing, chunk, loop, run, run-IsHeld, Event}
use ros_bridge.RobotSim.Startup.{Source, new_robot, open_stream, open_streams, start_robot}
use ros_bridge.RobotSim.Started.{start_robot-IsHeld}
use ros_bridge.Library.Startup.{responds, reaches, sample_path, xml_get_response}
use ros_bridge.Library.Connectivity.{opens, check_connectivity, try_until}
use ros_bridge.Library.Xml.{xml_components}
use ros_bridge.Tests.Data.{element, document}

abbrev closed : CncStatus
closed = record { door = pos 1; chuck = pos 1; request = pos 1 }

abbrev cycle : List Tick
cycle = message closed ∷ at 200 ∷ []

-- The server in its last cycle.
abbrev old_server : Server
old_server = record {
  door_state = none;
  chuck_state = none;
  close_door = none;
  counter = 25;
  load_state = none;
  verdicts = [];
}

execute_cb-IsDone_example : IsDone old_server (execute_cb 100 cycle old_server)
execute_cb-IsDone_example = execute_cb-IsDone 100 cycle old_server

execute_cb-ends_example : is_waiting (execute_cb 100 (at 200 ∷ at 120101 ∷ []) old_server) ≡ false
execute_cb-ends_example = execute_cb-ends 100 (at 200 ∷ at 120101 ∷ []) old_server refl

abbrev done_server : Server
done_server = record {
  door_state = some (pos 1);
  chuck_state = some (pos 1);
  close_door = some (pos 1);
  counter = 26;
  load_state = some "FAIL";
  verdicts = aborted "FAIL" ∷ [];
}

serve-done : serve ((100, cycle) ∷ []) old_server ≡ some done_server
unfolding serve execute_cb topic_callback pass
serve-done = refl

at_most : 25 ≤ 26
at_most = omega arith

serve-answers_example : (done_server.verdicts ≡ old_server.verdicts ++ answers 25 1) × (25 + 1 ≤ 26)
serve-answers_example = serve-answers ((100, cycle) ∷ []) old_server done_server at_most serve-done

abbrev open_server : Unload.Server
open_server = record {
  door_state = some (pos 0);
  chuck_state = some (pos 0);
  open_chuck = some (pos 0);
  counter = 1;
  unload_state = none;
  verdicts = [];
}

unload-IsUnloaded_example : IsUnloaded open_server (Unload.execute_cb 100 (at 300 ∷ []) open_server)
unload-IsUnloaded_example = unload-IsUnloaded 100 (at 300 ∷ []) open_server

abbrev idle_robot : Robot
idle_robot = record {
  cnc_queue = [];
  rbt_queue = [];
  cnc_capture = true;
  rbt_capture = true;
  cnc_state = none;
  robot_state = none;
  sequence = none;
  actions = [];
}

abbrev asks_load : Document
asks_load = document (element "MaterialLoad" "material_load" "ACTIVE" ∷ [])

abbrev asks_unload : Document
asks_unload = document (element "MaterialUnload" "material_unload" "ACTIVE" ∷ [])

abbrev load_history : List Event
load_history = chunk cnc (some asks_load) ∷ chunk rbt (some asks_load) ∷ loop [] ∷ []

abbrev loaded_robot : Robot
loaded_robot = record idle_robot { actions = close_chuck ∷ close_door ∷ [] }

load_history-run : run load_history idle_robot ≡ some loaded_robot
unfolding run RobotSim.pass read_cnc xml_callback read_rbt unload_step load_step run_sequence arrive
load_history-run = refl

run-IsHeld_example : IsHeld loaded_robot × Pairs loaded_robot.actions
run-IsHeld_example =
    run-IsHeld load_history idle_robot loaded_robot
      (record { cnc_held = inr (refl, refl); rbt_held = inr (refl, refl); idle = λ c r. refl })
      nothing load_history-run

-- Both agents are there, and one chunk comes before the robot's stream is there.
abbrev source : Source String
source = record {
  now = 0;
  attempts = opens ∷ [];
  current = responds 200 (some asks_load);
  sample = λ path. responds 200 path;
}

abbrev started_robot : Robot
started_robot = record idle_robot { cnc_queue = some asks_load ∷ [] }

start_robot-runs :
    start_robot source source (some asks_load ∷ []) new_robot
    ≡ ok (reaches (sample_path "/cnc" "7", sample_path "/Robot" "7")) started_robot
unfolding start_robot open_streams open_stream arrive xml_callback check_connectivity try_until
    xml_get_response xml_components
start_robot-runs = refl

started_robot-run :
    run (chunk rbt (some asks_load) ∷ loop [] ∷ []) started_robot ≡ some loaded_robot
unfolding run RobotSim.pass read_cnc xml_callback read_rbt unload_step load_step run_sequence arrive
started_robot-run = refl

start_robot-IsHeld_example :
    (started_robot.cnc_queue ≡ some asks_load ∷ [])
    × IsHeld loaded_robot
    × Pairs loaded_robot.actions
start_robot-IsHeld_example =
    start_robot-IsHeld source source (some asks_load ∷ [])
      (sample_path "/cnc" "7", sample_path "/Robot" "7") started_robot loaded_robot
      (chunk rbt (some asks_load) ∷ loop [] ∷ []) start_robot-runs started_robot-run
