-- ===== src/Fleet/Allocator.antt =====
-- Which robot gets a task: task_allocator.hpp and task_allocator.cpp of src/fms_fleet_server.
pub mod Best
use warehouse_fleet_manageme.Common.{
  String, ◌==◌, ◌==ₛ◌, Bool, false, not, Option, none, some, List, [], ◌∷◌, if◌then◌else◌,
}
use warehouse_fleet_manageme.Common.TextMaps.{TextMap}
use warehouse_fleet_manageme.Float.{Double}
use warehouse_fleet_manageme.Messages.{RobotStatus, TaskAssignment, state_idle}

module _ {D : Type 0} ⦃d : Double D⦄ where
  -- The distance to the pick, and the weighted charge that is missing.
  unfoldable pub score : TaskAssignment D → D → RobotStatus D → D
  score request soc_weight status =
      let here = status.pose.position in
      let there = request.pick_pose.position in
      let dx = d.sub there.x here.x in
      let dy = d.sub there.y here.y in
      let distance_to_pick = d.sqrt (d.add (d.mul dx dx) (d.mul dy dy)) in
      d.add distance_to_pick (d.mul (d.sub (d.decimal 1000 1) status.battery_soc) soc_weight)

  -- The robot is IDLE and scores less than the best so far.
  unfoldable pub improves : TaskAssignment D → D → RobotStatus D → D → Bool
  improves request soc_weight status best_score =
      if not (status.state == state_idle)
      then false
      else d.lt (score request soc_weight status) best_score

  -- The loop over the map, from the best robot and the best score so far.
  unfoldable pub scan : TaskAssignment D → D → TextMap (RobotStatus D) → String → D → String × D
  scan request soc_weight [] best_robot best_score = (best_robot, best_score)
  scan request soc_weight ((robot_id, status) ∷ robots) best_robot best_score =
      let better = improves request soc_weight status best_score in
      scan request soc_weight robots (if better then robot_id else best_robot)
        (if better then score request soc_weight status else best_score)

  unfoldable pub select_best_robot :
      TextMap (RobotStatus D) → TaskAssignment D → D → Option (String × D)
  unfolding scan improves
  select_best_robot robots request soc_weight =
      let (best_robot, best_score) = scan request soc_weight robots "" d.max in
      if best_robot ==ₛ "" then none else some (best_robot, best_score)
