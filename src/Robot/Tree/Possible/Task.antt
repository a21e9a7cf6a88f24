-- ===== src/Robot/Tree/Possible/Task.antt =====
-- A robot through a whole task: src/fms_robot_agent.
use warehouse_fleet_manageme.Common.{ℕ, ◌≡◌, true, false, none, List, ◌∷◌}
use warehouse_fleet_manageme.Float.{Double}
use warehouse_fleet_manageme.Messages.{TaskAssignment, TaskCompletion}
use warehouse_fleet_manageme.Robot.Fsm.{idle}
use warehouse_fleet_manageme.Robot.Agent.{Blackboard, active}
use warehouse_fleet_manageme.Robot.Nodes.Status.{NodeStatus, success}
use warehouse_fleet_manageme.Robot.System.{pick, drop, Inputs, System, Run, Reach}
use warehouse_fleet_manageme.Robot.Tree.{Tree, task_execution, History}
use warehouse_fleet_manageme.Robot.Tree.Possible.Engine.{all_succeed}
use warehouse_fleet_manageme.Robot.Tree.Possible.Charged.{IsCharged, StaysCharged}
use warehouse_fleet_manageme.Robot.Tree.Played.{history, is_unhalted}
use warehouse_fleet_manageme.Robot.Tree.Served.{queue, Names, IsSuccess}
use warehouse_fleet_manageme.Robot.Tree.Possible.{Extends}
use warehouse_fleet_manageme.Robot.Tree.Possible.Leaves.{IsCalm}

-- What a leaf reads at this time, with all servers ready.
abbrev at_time : ℕ → Inputs
at_time now = record {
  now = now;
  later = now;
  clock = record { start = now; pick = now; drop = now };
  nav_ready = true;
  servers = record { spin_ready = true; backup_ready = true };
}

module _ {D : Type 0} ⦃d : Double D⦄ where
  -- The robot goes on, to a calm system in which no leaf runs.
  abbrev Reaches : {r s : Run D} → Reach r s → History → Blackboard D → Type 0
  Reaches h k b =
      (s' : System D) × Extends h k (record { system = s'; active = none }) × IsCalm b s'

module _ {D : Type 0} ⦃d : Double D⦄ where
  -- The times of a pick and of a drop that begin now are over at some time.
  abbrev pub Elapses : ℕ → D → Type 0
  Elapses now duration = (later : ℕ) × (d.lt (d.seconds later now) duration ≡ false)

  -- A robot that runs no leaf, is IDLE, has a task that waits first and no current one, is told of
  -- no fault, can publish, and has a battery for which BatteryOK succeeds.
  pub record CanBegin (t : TaskAssignment D) (r : Run D) : Type 0 where
    pub inactive : r.active ≡ none
    pub is_idle : r.system.agent.fsm ≡ idle
    pub no_current : r.system.agent.current_task ≡ none
    pub no_fault : r.system.agent.fault_injected ≡ false
    pub publishes : r.system.agent.completion_pub ≡ active
    pub charged : IsCharged r.system.agent
    pub rest : List (TaskAssignment D)
    pub first : queue r.system.agent.interrupted_task r.system.agent.pending_tasks ≡ t ∷ rest

  -- The one completion of the task.
  abbrev ReportsOnce : TaskAssignment D → Run D → System D → Type 0
  ReportsOnce t r s' =
      (msg : TaskCompletion D) × (s'.agent.completions ≡ msg ∷ r.system.agent.completions)
      × IsSuccess msg
      × Names t r.system.agent.robot_name msg

  -- Steps of the robot, with no leaf halted and BatteryOK always ready to succeed, that are a run of
  -- TaskExecution in which every leaf succeeds.
  abbrev pub CanDo : (Tree → History → NodeStatus → Type 0) → TaskAssignment D → Run D → Type 0
  CanDo Ends t r =
      (r' : Run D) × (h : Reach r r') × (is_unhalted h ≡ true)
      × StaysCharged h
      × (history h ≡ all_succeed)
      × Ends task_execution (history h) success
      × (r'.active ≡ none)
      × (r'.system.agent.fsm ≡ idle)
      × ReportsOnce t r r'.system
