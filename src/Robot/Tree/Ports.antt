-- ===== src/Robot/Tree/Ports.antt =====
-- The leaves that bt_xml/robot_agent.xml names, the types that `register_bt_nodes` registers for
-- them, and the ports of these types: robot_agent_node.cpp and the leaves of src/fms_robot_agent.
use warehouse_fleet_manageme.Common.{
  String, ◌≡◌, refl, Bool, true, false, Option, none, some, List, [], ◌∷◌, All, ◌==ₛ◌,
  if◌then◌else◌,
}
use warehouse_fleet_manageme.Robot.System.{
  pick, drop, to_charger, to_leg, Leaf, battery_ok, request, charge, report, nav, recovery, execute,
  operation_port,
}

-- The classes of the leaves.
pub data LeafType : Type 0 where
  battery_ok_type charge_battery request_task navigate_to_pose : LeafType
  request_recovery execute_pick_drop report_status : LeafType

pub data Direction : Type 0 where
  input output : Direction

pub record Port : Type 0 where
  pub name : String
  pub direction : Direction
  pub has_default : Bool

abbrev plain_input : String → Port
plain_input name = record { name = name; direction = input; has_default = false }

abbrev default_input : String → Port
default_input name = record { name = name; direction = input; has_default = true }

abbrev plain_output : String → Port
plain_output name = record { name = name; direction = output; has_default = false }

-- `providedPorts` of each class.
abbrev battery_ok_ports : List Port
battery_ok_ports = default_input "threshold" ∷ []

abbrev charge_battery_ports : List Port
charge_battery_ports = []

abbrev request_task_ports : List Port
request_task_ports = plain_output "pick_pose" ∷ plain_output "drop_pose" ∷ []

abbrev navigate_to_pose_ports : List Port
navigate_to_pose_ports = plain_input "goal" ∷ []

abbrev request_recovery_ports : List Port
request_recovery_ports = default_input "max_attempts" ∷ []

abbrev execute_pick_drop_ports : List Port
execute_pick_drop_ports = plain_input "operation" ∷ default_input "duration_secs" ∷ []

abbrev report_status_ports : List Port
report_status_ports = []

unfoldable pub provided_ports : LeafType → List Port
provided_ports battery_ok_type = battery_ok_ports
provided_ports charge_battery = charge_battery_ports
provided_ports request_task = request_task_ports
provided_ports navigate_to_pose = navigate_to_pose_ports
provided_ports request_recovery = request_recovery_ports
provided_ports execute_pick_drop = execute_pick_drop_ports
provided_ports report_status = report_status_ports

unfoldable pub register_bt_nodes : List (String × LeafType)
register_bt_nodes =
    ("RequestTask", request_task)
    ∷ ("NavigateToPose", navigate_to_pose)
    ∷ ("ExecutePickDrop", execute_pick_drop)
    ∷ ("ReportStatus", report_status)
    ∷ ("RequestRecovery", request_recovery)
    ∷ ("BatteryOK", battery_ok_type)
    ∷ ("ChargeBattery", charge_battery)
    ∷ []

module _ {A : Type 0} where
  -- The first entry of a name.
  unfoldable pub lookup : String → List (String × A) → Option A
  lookup k [] = none
  lookup k ((j, v) ∷ rest) = if j ==ₛ k then some v else lookup k rest

-- The name of the element in the file.
unfoldable pub element : Leaf → String
element battery_ok = "BatteryOK"
element request = "RequestTask"
element charge = "ChargeBattery"
element report = "ReportStatus"
element (nav v) = "NavigateToPose"
element (recovery l) = "RequestRecovery"
element (execute l) = "ExecutePickDrop"

-- The attributes of the element, but for its name in the tree.
unfoldable pub attributes : Leaf → List (String × String)
attributes battery_ok = ("threshold", "20.0") ∷ []
attributes request = ("pick_pose", "{pick_pose}") ∷ ("drop_pose", "{drop_pose}") ∷ []
attributes charge = []
attributes report = []
attributes (nav to_charger) = ("goal", "{charger_pose}") ∷ []
attributes (nav (to_leg pick)) = ("goal", "{pick_pose}") ∷ []
attributes (nav (to_leg drop)) = ("goal", "{drop_pose}") ∷ []
attributes (recovery l) = ("max_attempts", "3") ∷ []
attributes (execute pick) =
    ("operation", operation_port pick) ∷ ("duration_secs", "{pick_duration}") ∷ []
attributes (execute drop) =
    ("operation", operation_port drop) ∷ ("duration_secs", "{drop_duration}") ∷ []

abbrev port_names : List Port → List (String × Direction)
port_names [] = []
port_names (p ∷ ps) = (p.name, p.direction) ∷ port_names ps

-- The attribute is a port of the class, and the port has an attribute.
abbrev IsPortOf : LeafType → String × String → Type 0
IsPortOf c a = (way : Direction) × (lookup a.0 (port_names (provided_ports c)) ≡ some way)

abbrev IsBound : Leaf → Port → Type 0
IsBound l p = (text : String) × (lookup p.name (attributes l) ≡ some text)

-- Every leaf of the file is of a class that is registered under the name of its element, each of
-- its attributes is a port of this class, and each port of the class has an attribute.
ports_complete :
    (l : Leaf)
    → (c : LeafType) × (lookup (element l) register_bt_nodes ≡ some c)
      × All (IsPortOf c) (attributes l)
      × All (IsBound l) (provided_ports c)
unfolding lookup element attributes provided_ports register_bt_nodes
ports_complete battery_ok = (_, refl, ((input, refl), tt), ((_, refl), tt))
ports_complete request =
    (_, refl, ((output, refl), ((output, refl), tt)), ((_, refl), ((_, refl), tt)))
ports_complete charge = (_, refl, tt, tt)
ports_complete report = (_, refl, tt, tt)
ports_complete (nav to_charger) = (_, refl, ((input, refl), tt), ((_, refl), tt))
ports_complete (nav (to_leg pick)) = (_, refl, ((input, refl), tt), ((_, refl), tt))
ports_complete (nav (to_leg drop)) = (_, refl, ((input, refl), tt), ((_, refl), tt))
ports_complete (recovery l) = (_, refl, ((input, refl), tt), ((_, refl), tt))
ports_complete (execute pick) =
    (_, refl, ((input, refl), ((input, refl), tt)), ((_, refl), ((_, refl), tt)))
ports_complete (execute drop) =
    (_, refl, ((input, refl), ((input, refl), tt)), ((_, refl), ((_, refl), tt)))
