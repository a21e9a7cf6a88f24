-- ===== src/Fleet/Names.antt =====
-- The names of states, task types and results: robot_status_utils.hpp and task_utils.hpp of
-- src/fms_fleet_server.
use warehouse_fleet_manageme.Common.{ℕ, String, ◌==◌, if◌then◌else◌}
use warehouse_fleet_manageme.Messages.{
  task_pick, task_drop, task_charge, result_success, result_failed, result_cancelled,
}

unfoldable pub robot_state_to_string : ℕ → String
robot_state_to_string state =
    if state == 0
    then "IDLE"
    else if state == 1
    then "ASSIGNED"
    else if state == 2
    then "NAVIGATING"
    else if state == 3
    then "EXECUTING"
    else if state == 4
    then "REPORTING"
    else if state == 5
    then "RECOVERING"
    else if state == 6
    then "CHARGING"
    else "UNKNOWN"

unfoldable pub task_type_to_string : ℕ → String
task_type_to_string type =
    if type == task_pick
    then "PICK"
    else if type == task_drop
    then "DROP"
    else if type == task_charge
    then "CHARGE"
    else "UNKNOWN"

unfoldable pub task_result_to_string : ℕ → String
task_result_to_string result =
    if result == result_success
    then "COMPLETED"
    else if result == result_failed
    then "FAILED"
    else if result == result_cancelled
    then "CANCELLED"
    else "UNKNOWN"
