-- ===== src/Lib.antt =====
-- The robots of a warehouse and the server that gives them tasks.
--
-- The program has two parts. A robot agent (src/fms_robot_agent) runs one robot: a state machine, a
-- model of the battery, and a behavior tree whose leaves drive the robot with Nav2, recover from
-- failures, execute a pick or a drop, report, and charge. The fleet server (src/fms_fleet_server)
-- gathers the statuses of the robots, takes tasks from ROS, from a RabbitMQ queue and over gRPC, gives
-- each to the best idle robot, and keeps the records of the tasks in MongoDB. They talk by the
-- messages of src/fms_msgs.
--
-- Shared modules.
--   Common: tests, lists, integers, maps over texts in their order, decimal numbers.
--   Float: `double` and `float` as a parameter, a record of operations, with the laws of IEEE 754
--   numbers that the code relies on; Float/Order has the order that follows, and
--   Float/Fixed numbers that meet the laws.
--   Messages: src/fms_msgs/msg.
-- The robot (src/fms_robot_agent).
--   Robot/Fsm: robot_fsm.hpp and robot_fsm.cpp. `process` gives the new state and the result.
--   Robot/Battery: battery_model.hpp.
--   Robot/Agent: robot_agent_node.hpp and .cpp. The record `Agent` holds the public state that the
--   leaves use and the private one; Callbacks has the timers, the subscription and the service, and
--   Lifecycle the transitions of the node. What is published, and what is asked of Nav2, is kept in
--   lists.
--   Robot/Nodes: the leaves, src/bt_nodes, a module each. A method of a leaf takes the fields of the
--   leaf and the agent and gives both anew. A state that callbacks share by a weak pointer is a state
--   with the number of its goal: a callback of another goal does not find it.
--   Robot/Tree: bt_xml/robot_agent.xml as a tree, with the course of a task through it. Played reads
--   from the steps of the robot which leaves ended; States, Outcome, Idle, Charged and Rounds follow
--   the state machine along them, and Served the task that the robot works at. Possible has the
--   steps that bring a task to its end. Ports has the classes of the leaves and their ports.
--   Robot/Main: robot_agent_main.cpp, from the node that it makes to its end.
--   Robot/System: the whole robot, with a step relation. A step is a call from outside (a message, a
--   service, a timer, a callback of an action), the start, a tick or a halt of a leaf of
--   bt_xml/robot_agent.xml, or the start of the way to the charger over a leaf that runs. Which
--   leaf starts next, and when a leaf is halted, is left open there.
-- The fleet server (src/fms_fleet_server).
--   Fleet/Allocator: task_allocator.cpp. Fleet/Names: robot_status_utils.hpp and task_utils.hpp.
--   Fleet/Effect: code that changes a state and may throw; what was changed before stays changed.
--   Fleet/Store: mongo_store.cpp, over the calls of the MongoDB driver. Fleet/Store/Memory is a
--   database of lists that meets the laws.
--   Fleet/Broker: rabbitmq_client.cpp, over the calls of rabbitmq-c.
--   Fleet/Node: fleet_server_node.cpp; Consume is the loop over tasks.incoming, Submit what a task
--   leads to, View what is known of the robots, Mirror what the database shows of them, Command what a
--   command to a robot needs, Summary the text that its timer logs, and Entry the three ways in which
--   a task enters.
--   Fleet/Grpc: fleet_grpc_server.cpp, over the messages of proto/fleet.proto; Server is the start and
--   the end of the service.
--   Fleet/Setup: the constructor and the destructor of the node, with its parameters. Fleet/Main is
--   the process, fleet_server_main.cpp.
--   Fleet/System: the node at work, with a step relation. A thread chooses a robot under a lock and
--   dispatches the task without it, so the choice and the dispatch are two events, and those of other
--   threads may come between them.
-- Warehouse: a task from the service to the robot that does it, and back. Warehouse/World has the
-- server and one robot of the fleet at work together, with the topics between them.
-- Examples applies the theorems at concrete inputs.
--
-- Parameters. Floating point, the MongoDB driver, rabbitmq-c, the JSON library, the library of managed
-- nodes, the engine of the behavior tree, the clock, whether gRPC can listen at an address, whether the
-- calls of rclcpp in the constructor of the fleet server return, what `spin` does until it is left, and
-- the answers of the ROS services are not source. Each is an argument, and what is relied on is a record
-- of laws (IsIeee, IsMongo, IsBroker, IsManaged, IsEngine, Admits). A call that may throw gives `threw` or
-- `none`.
--
-- Bounds and fuel. A `uint8_t` made from a wider integer is taken modulo 256. Counters of recovery
-- attempts are natural numbers: they stop at the number of attempts. The loop over tasks.incoming runs
-- for as many rounds as it is given readings of the clock; a recovery is followed for as many ticks as
-- it is given rounds of answers, and `2 * m + 3` are enough for `m` attempts. Nothing else needs fuel.
--
-- Not modelled: logging, but for the summary; the order in which the executors make the calls; two
-- uses of the connection to the broker at once; the reactive root of the behavior tree: the steps of
-- the robot allow more than it does, any leaf to start when none runs, any halt, and the way to the
-- charger over a task, so that what holds after all steps holds of it too; the simulation, the set-up
-- of Nav2, the REST gateway of src/fms_api, scripts and tests.
pub mod Common
pub mod Float
pub mod Messages
pub mod Robot
pub mod Fleet
pub mod Warehouse
pub mod Examples
