-- ===== src/Robot/Nodes/Recovery.antt =====
-- The leaf that spins and backs up to recover: request_recovery.hpp and request_recovery.cpp of
-- src/fms_robot_agent.
pub mod Attempts
use warehouse_fleet_manageme.Common.{
  ℕ, suc, ◌+◌, ℤ, pos, leb_ℤ, Bool, true, false, not, Option, none, some, if◌then◌else◌,
}
use warehouse_fleet_manageme.Robot.Fsm.{nav_failed, recovery_done, recovery_failed}
use warehouse_fleet_manageme.Robot.Agent.{Agent, Request, spin, back_up, fire, send}
use warehouse_fleet_manageme.Robot.Nodes.Status.{NodeStatus, running, success, failure, Shared}
use warehouse_fleet_manageme.Robot.Nodes.Navigate.{ResultCode, is_succeeded, on_goal}

pub data RecoveryPhase : Type 0 where
  spinning backing done failed : RecoveryPhase

pub record RecovState : Type 0 where
  pub result_received : Bool
  pub result_success : Bool

pub record RecoveryNode : Type 0 where
  pub phase : RecoveryPhase
  pub attempt : ℕ
  pub spin_state : Option (Shared RecovState)
  pub backup_state : Option (Shared RecovState)

-- The readiness of the two action servers.
pub record Servers : Type 0 where
  pub spin_ready : Bool
  pub backup_ready : Bool

abbrev pub refused : RecovState
refused = record { result_received = true; result_success = false }

abbrev pub waiting : RecovState
waiting = record { result_received = false; result_success = false }

unfoldable pub spin_result_callback : ℕ → ResultCode → RecoveryNode → RecoveryNode
spin_result_callback goal code n = record n {
  spin_state =
      on_goal goal (λ s. record { result_received = true; result_success = is_succeeded code })
        n.spin_state;
}

unfoldable pub backup_result_callback : ℕ → ResultCode → RecoveryNode → RecoveryNode
backup_result_callback goal code n = record n {
  backup_state =
      on_goal goal (λ s. record { result_received = true; result_success = is_succeeded code })
        n.backup_state;
}

unfoldable pub on_halted : RecoveryNode → RecoveryNode
on_halted n = record n { spin_state = none; backup_state = none }

module _ {D : Type 0} where
  -- A state is numbered also where no goal is sent, since it is a new one.
  unfoldable pub start_spin : Servers → RecoveryNode → Agent D → RecoveryNode × Agent D
  start_spin v n a =
      if not v.spin_ready
      then (
        record n { spin_state = some (record { goal = a.next_goal; state = refused }) },
        record a { next_goal = suc a.next_goal },
      )
      else (
        record n { spin_state = some (record { goal = a.next_goal; state = waiting }) },
        send a (spin a.next_goal),
      )

  unfoldable pub start_backup : Servers → RecoveryNode → Agent D → RecoveryNode × Agent D
  start_backup v n a =
      if not v.backup_ready
      then (
        record n { backup_state = some (record { goal = a.next_goal; state = refused }) },
        record a { next_goal = suc a.next_goal },
      )
      else (
        record n { backup_state = some (record { goal = a.next_goal; state = waiting }) },
        send a (back_up a.next_goal),
      )

  unfoldable pub on_start : Servers → RecoveryNode → Agent D → RecoveryNode × Agent D × NodeStatus
  unfolding start_spin
  on_start v n a =
      let (n', a') =
        start_spin v (record n { attempt = 0; phase = spinning }) (fire a nav_failed) in
      (n', a', running)

  -- A spin or a backup failed: give up, or spin again.
  unfoldable pub retry : ℤ → Servers → RecoveryNode → Agent D → RecoveryNode × Agent D
  unfolding start_spin
  retry max_attempts v n a =
      let counted = record n { attempt = n.attempt + 1 } in
      if leb_ℤ max_attempts (pos (n.attempt + 1))
      then (record counted { phase = failed }, a)
      else start_spin v (record counted { phase = spinning }) a

  unfoldable pub run_spin :
      ℤ → Servers → Option (Shared RecovState) → RecoveryNode → Agent D → RecoveryNode × Agent D
  unfolding retry start_backup
  run_spin max_attempts v none n a = (n, a)
  run_spin max_attempts v (some s) n a =
      if not s.state.result_received
      then (n, a)
      else if s.state.result_success
      then start_backup v (record n { phase = backing }) a
      else retry max_attempts v n a

  unfoldable pub run_backup :
      ℤ → Servers → Option (Shared RecovState) → RecoveryNode → Agent D → RecoveryNode × Agent D
  unfolding retry
  run_backup max_attempts v none n a = (n, a)
  run_backup max_attempts v (some s) n a =
      if not s.state.result_received
      then (n, a)
      else if s.state.result_success
      then (record n { phase = done }, a)
      else retry max_attempts v n a

  -- `port` is the input port `max_attempts`.
  abbrev pub attempts_allowed : Option ℤ → Agent D → ℤ
  attempts_allowed none a = a.recovery_max_attempts
  attempts_allowed (some max_attempts) a = max_attempts

  dispatch :
      RecoveryPhase → ℤ → Servers → RecoveryNode → Agent D → RecoveryNode × Agent D × NodeStatus
  unfolding run_spin run_backup
  dispatch spinning m v n a = let (n', a') = run_spin m v n.spin_state n a in (n', a', running)
  dispatch backing m v n a = let (n', a') = run_backup m v n.backup_state n a in (n', a', running)
  dispatch done m v n a = (n, fire a recovery_done, success)
  dispatch failed m v n a = (n, fire a recovery_failed, failure)

  unfoldable pub on_running :
      Option ℤ → Servers → RecoveryNode → Agent D → RecoveryNode × Agent D × NodeStatus
  unfolding dispatch
  on_running port v n a = dispatch n.phase (attempts_allowed port a) v n a
