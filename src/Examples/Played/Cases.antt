-- ===== src/Examples/Played/Cases.antt =====
-- A robot through a whole task: src/fms_robot_agent.
use mathlib.Core.List.{Mem}
use warehouse_fleet_manageme.Common.{◌≡◌, refl, sym, subst, ◌⊎◌, inl, none, some, [], ◌∷◌, true}
use warehouse_fleet_manageme.Float.Fixed.{Fixed, fixed_double}
use warehouse_fleet_manageme.Messages.{TaskCompletion}
use warehouse_fleet_manageme.Robot.Fsm.{idle, assigned, process}
use warehouse_fleet_manageme.Robot.Nodes.Status.{success, failure}
use warehouse_fleet_manageme.Robot.Nodes.RequestTask
use warehouse_fleet_manageme.Robot.Nodes.RequestTask.{take_task, accept_task}
use warehouse_fleet_manageme.Robot.Nodes.Navigate
use warehouse_fleet_manageme.Robot.Nodes.Navigate.{goal_response_callback, result_callback}
use warehouse_fleet_manageme.Robot.Nodes.Recovery
use warehouse_fleet_manageme.Robot.Nodes.Recovery.{spin_result_callback, backup_result_callback}
use warehouse_fleet_manageme.Robot.Nodes.Execute
use warehouse_fleet_manageme.Robot.Nodes.Report
use warehouse_fleet_manageme.Robot.System.{drop, recovery, call, start_leaf, tick_leaf, Run}
use warehouse_fleet_manageme.Robot.Tree.{task_execution}
use warehouse_fleet_manageme.Robot.Tree.Played.{history, is_unhalted}
use warehouse_fleet_manageme.Robot.Tree.Outcome.{
  task_state, recovered_course, recovered_stays_assigned,
}
use warehouse_fleet_manageme.Robot.Tree.Idle.{idle_kept}
use warehouse_fleet_manageme.Robot.Tree.Rounds.{Rounds, here, done, IsFree, rounds-IsFree}
use warehouse_fleet_manageme.Robot.Tree.Served.{Names, IsNameless, IsSuccess}
use warehouse_fleet_manageme.Robot.Tree.Served.Task.{task_served}
use warehouse_fleet_manageme.Robot.Tree.Served.GivenUp.{task_given_up}
use warehouse_fleet_manageme.Examples.Robot.{new_run, task, agent}
use warehouse_fleet_manageme.Examples.Tree.{
  given_up, given_up_ends, Runs, Runs-IsEngine, leaf_succeeded, leaf_failed, sequence_over,
  sequence_on, fallback_on, fallback_stop, attempt_succeeded,
}
use warehouse_fleet_manageme.Examples.Played.Served.{given, served, served_run, served_ends}
use warehouse_fleet_manageme.Examples.Played.{Played, played, drop_recovers, sets_out, gives_up}

abbrev stuck : Played (given task)
stuck = played (given task) drop_recovers

recovered_ends : Runs task_execution recovered_course success
recovered_ends =
    sequence_on (leaf_succeeded _)
      (sequence_on (attempt_succeeded (fallback_stop (leaf_succeeded _)))
        (sequence_on (leaf_succeeded _)
          (sequence_on
            (attempt_succeeded
              (fallback_on (leaf_failed _) (fallback_stop (leaf_succeeded _)) refl))
            (sequence_on (leaf_succeeded _) (sequence_on (leaf_succeeded _) sequence_over refl)
              refl)
            refl)
          refl)
        refl)
      refl

stuck_run :
    (history stuck.reach ≡ recovered_course)
    × (is_unhalted stuck.reach ≡ true)
    × (stuck.last.active ≡ none)
unfolding call start_leaf tick_leaf RequestTask.on_start RequestTask.on_running take_task
    accept_task Navigate.on_start Navigate.on_running Navigate.observe Navigate.conclude
    Recovery.on_start Recovery.on_running spin_result_callback backup_result_callback
    Execute.on_start Execute.on_running Report.tick goal_response_callback result_callback process
stuck_run = (refl, refl, refl)

stuck_ends : Runs task_execution (history stuck.reach) success
stuck_ends = subst (λ h. Runs task_execution h success) (sym stuck_run.0) recovered_ends

task_served_example :
    ((served task).last.system.agent.current_task ≡ none)
    × ((msg : TaskCompletion Fixed) × ((served task).last.system.agent.completions ≡ msg ∷ [])
        × IsSuccess msg
        × (Names task "robot_1" msg
            ⊎ (IsNameless msg × ((served task).last.system.agent.interrupted_task ≡ some task))))
task_served_example =
    task_served Runs Runs-IsEngine (served task).reach task [] refl refl refl (served_run task).1
      (served_ends task)

task_state_example :
    (stuck.last.system.agent.fsm ≡ idle)
    ⊎ ((stuck.last.system.agent.fsm ≡ assigned)
        × Mem (recovery drop, success) (history stuck.reach))
task_state_example =
    task_state Runs Runs-IsEngine stuck.reach refl (inl refl) stuck_run.1 stuck_run.2 stuck_ends

recovered_stays_assigned_example : stuck.last.system.agent.fsm ≡ assigned
recovered_stays_assigned_example =
    recovered_stays_assigned stuck.reach refl refl stuck_run.1 stuck_run.2 stuck_run.0

-- A robot that is IDLE and still has the pose of a pick drives to it.
abbrev heading : Run Fixed
heading = record new_run {
  system = record (new_run.system) {
    agent = record agent {
      blackboard = record (agent.blackboard) { pick_pose = agent.blackboard.charger_pose };
    };
  };
}

abbrev driving : Played heading
driving = played heading sets_out

idle_kept_example : driving.last.system.agent.fsm ≡ idle
unfolding start_leaf Navigate.on_start
idle_kept_example = idle_kept driving.reach refl refl refl tt (λ e. cc)

abbrev one_round : Rounds Runs Runs-IsEngine (given task) (served task).last
one_round = done here (served task).reach (served_run task).1 (served_run task).2 (served_ends task)

rounds-IsFree_example : IsFree Runs Runs-IsEngine (served task).last
rounds-IsFree_example =
    rounds-IsFree Runs Runs-IsEngine one_round (record { inactive = refl; between = inl refl })

abbrev stranded : Played (given task)
stranded = played (given task) gives_up

stranded_run :
    (history stranded.reach ≡ given_up)
    × (is_unhalted stranded.reach ≡ true)
    × (stranded.last.active ≡ none)
unfolding call start_leaf tick_leaf RequestTask.on_start RequestTask.on_running take_task
    accept_task Navigate.on_start Recovery.on_start Recovery.on_running process
stranded_run = (refl, refl, refl)

task_given_up_example :
    (stranded.last.system.agent.completions ≡ [])
    × ((stranded.last.system.agent.current_task ≡ some task)
        ⊎ ((stranded.last.system.agent.current_task ≡ none)
            × (stranded.last.system.agent.interrupted_task ≡ some task)))
task_given_up_example =
    task_given_up Runs Runs-IsEngine stranded.reach task [] refl refl refl refl stranded_run.1
      stranded_run.2 (subst (λ h. Runs task_execution h failure) (sym stranded_run.0) given_up_ends)
