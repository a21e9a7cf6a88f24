-- ===== src/Robot/Fsm/Laws.antt =====
-- What `process` promises in each state: robot_fsm.cpp of src/fms_robot_agent.
use warehouse_fleet_manageme.Common.{
  ◌≡◌, refl, ◌≢◌, ◌↔◌, ◌⊎◌, ◌≤◌, true, List, [], ◌∷◌, arith, length,
}
use warehouse_fleet_manageme.Robot.Fsm.{
  RobotState, idle, assigned, navigating, executing, reporting, recovering, charging, FsmEvent,
  nav_started, nav_succeeded, low_battery, battery_full, report_sent, recovery_failed, process, run,
}

-- `process` returns `true` exactly when it changed the state.
process_changed : (s : RobotState) (e : FsmEvent) → ((process s e).1 ≡ true) ↔ ((process s e).0 ≢ s)
unfolding process
process_changed s e = ground arith

-- In any state but REPORTING, LOW_BATTERY leads to CHARGING, and a charging robot leaves CHARGING
-- on BATTERY_FULL alone, and then for IDLE.
pub charging_entry_exit :
    ((s : RobotState) → s ≢ reporting → (process s low_battery).0 ≡ charging)
    × ((e : FsmEvent)
        → (process charging e).0 ≢ charging
        → (e ≡ battery_full) × ((process charging e).0 ≡ idle))
unfolding process
charging_entry_exit = (λ s h. ground arith, λ e h. ground arith)

-- A robot becomes IDLE only by a report, by a recovery that is given up, or by a full battery.
idle_entry :
    (s : RobotState) (e : FsmEvent)
    → (process s e).0 ≡ idle
    → (s ≡ idle)
      ⊎ ((e ≡ report_sent) × ((s ≡ executing) ⊎ (s ≡ reporting)))
      ⊎ ((e ≡ recovery_failed) × (s ≡ recovering))
      ⊎ ((e ≡ battery_full) × (s ≡ charging))
unfolding process
idle_entry s e h = ground arith

pub step-not_reporting :
    (s : RobotState) (e : FsmEvent) → s ≢ reporting → (process s e).0 ≢ reporting
unfolding process
step-not_reporting s e h = ground arith

-- No sequence of events brings a robot that is not in REPORTING into REPORTING.
reporting_unreachable : (s : RobotState) (es : List FsmEvent) → s ≢ reporting → run s es ≢ reporting
unfolding run
reporting_unreachable s [] h = h
reporting_unreachable s (e ∷ es) h =
    reporting_unreachable (process s e).0 es (step-not_reporting s e h)

-- From every state at most four events lead back to IDLE.
idle_reachable : (s : RobotState) → (es : List FsmEvent) × (length es ≤ 4) × (run s es ≡ idle)
unfolding run process
idle_reachable idle = ([], omega arith, refl)
idle_reachable assigned = (nav_started ∷ nav_succeeded ∷ report_sent ∷ [], omega arith, refl)
idle_reachable navigating = (nav_succeeded ∷ report_sent ∷ [], omega arith, refl)
idle_reachable executing = (report_sent ∷ [], omega arith, refl)
idle_reachable reporting = (report_sent ∷ [], omega arith, refl)
idle_reachable recovering = (recovery_failed ∷ [], omega arith, refl)
idle_reachable charging = (battery_full ∷ [], omega arith, refl)
