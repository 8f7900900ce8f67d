-- ===== src/Lib.antt =====
-- Verification of the bridge between MTConnect and ROS (mtconnect/mtconnect_ros_bridge/scripts).
--
-- The program connects a machine tool, that an MTConnect agent streams as XML, with the nodes of a
-- robot. A node keeps an adapter, which serves the robot's data items to the agent, and reads the
-- stream of the machine tool. One action is a handshake over the two: ACTIVE, COMPLETE, READY.
--
--   Base          shared names, dictionaries, and methods that may raise (`M`, `Outcome`)
--   DataItem      src/data_item.py: events, samples and conditions; Rounds: a gathering round
--   Adapter       src/mtconnect_adapter.py: Defs: the methods; Gather, Clients: what is sent;
--                 Connections: start, stop, finish_request and heartbeat
--   Library       bridge_library.py: Tags (split_event), Events (add_event, action_cb), Goals
--                 (set_goal, type_check), Xml (xml_components), Connectivity (check_connectivity);
--                 Startup, Packages: obtain_dataMap, xml_get_response, what constructors share;
--                 Actions, Effects, Nodes, Initial, Connects, Reaching: what they do to a node
--   Server        bridge_server.py: Defs: the handlers; Phases: the machine of the handshake; Runs,
--                 Requests, Order and Draining: runs of execute_cb; Startup:
--                 the constructor; Entries, Started, Reaching: what it leaves, and when it ends
--   Client        bridge_client.py: Defs: the handlers; Handshake: a handshake that is never completed,
--                 and reporting; Lost: without its goals;
--                 Startup: the constructor; Started: what it leaves
--   Publisher     bridge_publisher.py: Defs: the handlers; Current: the values of a chunk;
--                 Queue: what is published of the queue; Startup: the constructor; Silent, Checks,
--                 Values, Started: what it leaves
--   Subscriber    bridge_subscriber.py: Defs: the handlers; Conversion: the values of a message;
--                 Topics: the wait for topics; Startup: the constructor; Serving, Listening: what it
--                 leaves
--   Material      material_load_server.py and material_unload_server.py; Cycles: their answers
--   RobotSim      robot_sim.py; Sequence: its histories; Startup, Started: its start
--   LongPull      src/long_pull.py: Defs: _read_all and _read_chunk; Text, Pull and Session: long_pull;
--                 Scanner: what it asks of the scanner; Cuts, Chunks: the stream in pieces; Heads,
--                 Written, Parts, Frames, Deliveries: the parts in it; Ends: its loop
--   Turtle        bridge/bridge.py and bridge/bridge_adapter.py, from the repository's root; Poses,
--                 Moves: what the adapter and the turtle are told
--   Tests         examples
--
-- A class is a record and a method a function on it. A method that may raise returns an `Outcome`
-- with the state that it leaves also when it raises. An event of the dictionary of a node is the
-- object at an index of the list of the adapter, as the code shares it. Threads are sequences of
-- ticks: a chunk that arrives, a message, or one pass of a loop. Loops that
-- wait go through the list of ticks. The loop of long_pull over the parts of a chunk has fuel, two steps
-- for each byte that is left, which is enough; the loop over the chunks, which only an exception
-- leaves, takes the number of its passes. Times are milliseconds.
--
-- Parameters are the sockets (`Sockets`), floating-point numbers (`Number`), and for the client the
-- answers of the agent and of the action servers (`Outside`), and for long_pull its callback and the
-- scanner (`Scanner`, which `IsScanner` describes). An XML document is what the parser
-- returns of it: a header, and elements in their order.
--
-- Of a start, what YAML makes of the configuration and what HTTP meets (`Agent`, and
-- for the simulated robot `Source`) are parameters, and the packages with their classes, `Packages` for
-- the publisher and the subscriber and `Actions` for the server. A module without `import socket` raises
-- NameError where it would catch a socket error (`Handler`).
--
-- An answer to a goal is the call of `set_succeeded` or `set_aborted` that the code makes. `sys.exit` in a
-- callback of an action server ends the thread of that server. The request of a goal by the client is
-- taken to be answered with status 200.
--
-- Not modelled: the inside of YAML and HTTP and of actionlib, how the client finds the classes of its
-- packages, how threads start, and the scanner, which is a library of its own; what is only logged.
pub mod Base
pub mod DataItem
pub mod Adapter
pub mod Library
pub mod Server
pub mod Client
pub mod Publisher
pub mod Subscriber
pub mod Material
pub mod RobotSim
pub mod LongPull
pub mod Turtle
pub mod Tests
