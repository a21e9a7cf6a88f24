-- ===== src/Examples/Played/Served.antt =====
-- A robot through a whole task in which every drive arrives: src/fms_robot_agent.
use warehouse_fleet_manageme.Common.{◌≡◌, refl, none, sym, subst, [], ◌∷◌, true}
use warehouse_fleet_manageme.Float.Fixed.{Fixed, fixed_double}
use warehouse_fleet_manageme.Messages.{TaskAssignment}
use warehouse_fleet_manageme.Robot.Fsm.{process}
use warehouse_fleet_manageme.Robot.Nodes.Status.{success}
use warehouse_fleet_manageme.Robot.Nodes.RequestTask
use warehouse_fleet_manageme.Robot.Nodes.RequestTask.{take_task, accept_task}
use warehouse_fleet_manageme.Robot.Nodes.Navigate
use warehouse_fleet_manageme.Robot.Nodes.Navigate.{goal_response_callback, result_callback}
use warehouse_fleet_manageme.Robot.Nodes.Execute
use warehouse_fleet_manageme.Robot.Nodes.Report
use warehouse_fleet_manageme.Robot.System.{
  pick, drop, request, report, execute, nav, to_leg, call, start_leaf, tick_leaf, Run,
}
use warehouse_fleet_manageme.Robot.Tree.{task_execution, History}
use warehouse_fleet_manageme.Robot.Tree.Played.{history, is_unhalted}
use warehouse_fleet_manageme.Examples.Robot.{new_run, agent}
use warehouse_fleet_manageme.Examples.Tree.{
  Runs, leaf_succeeded, sequence_over, sequence_on, fallback_stop, attempt_succeeded,
}
use warehouse_fleet_manageme.Examples.Played.{Played, played, all_arrive}

-- The robot with a task that waits.
abbrev pub given : TaskAssignment Fixed → Run Fixed
given t = record new_run {
  system = record (new_run.system) { agent = record agent { pending_tasks = t ∷ [] } };
}

abbrev pub served : (t : TaskAssignment Fixed) → Played (given t)
served t = played (given t) all_arrive

abbrev arrivals : History
arrivals =
    (request, success)
    ∷ (nav (to_leg pick), success)
    ∷ (execute pick, success)
    ∷ (nav (to_leg drop), success)
    ∷ (execute drop, success)
    ∷ (report, success)
    ∷ []

arrivals_end : Runs task_execution arrivals success
arrivals_end =
    sequence_on (leaf_succeeded _)
      (sequence_on (attempt_succeeded (fallback_stop (leaf_succeeded _)))
        (sequence_on (leaf_succeeded _)
          (sequence_on (attempt_succeeded (fallback_stop (leaf_succeeded _)))
            (sequence_on (leaf_succeeded _) (sequence_on (leaf_succeeded _) sequence_over refl)
              refl)
            refl)
          refl)
        refl)
      refl

pub served_run :
    (t : TaskAssignment Fixed)
    → (history (served t).reach ≡ arrivals)
      × (is_unhalted (served t).reach ≡ true)
      × ((served t).last.active ≡ none)
unfolding call start_leaf tick_leaf RequestTask.on_start RequestTask.on_running take_task
    accept_task Navigate.on_start Navigate.on_running Navigate.observe Navigate.conclude
    Execute.on_start Execute.on_running Report.tick goal_response_callback result_callback process
served_run t = (refl, refl, refl)

pub served_ends :
    (t : TaskAssignment Fixed) → Runs task_execution (history (served t).reach) success
served_ends t = subst (λ h. Runs task_execution h success) (sym (served_run t).0) arrivals_end
