-- ===== src/Robot/Fsm/Order.antt =====
-- The order of events that brings a robot into EXECUTING: robot_fsm.cpp of src/fms_robot_agent.
use warehouse_fleet_manageme.Common.{
  ◌≡◌, sym, subst, List, [], ◌∷◌, Embeds, done, keep, skip, Embeds-tail,
}
use warehouse_fleet_manageme.Robot.Fsm.{
  RobotState, idle, assigned, navigating, executing, reporting, recovering, charging, FsmEvent,
  task_received, nav_started, nav_succeeded, nav_failed, report_sent, recovery_done,
  recovery_failed, low_battery, battery_full, fault_injected, process, run,
}

-- The events that a robot in this state still waits for before it executes.
abbrev missing : RobotState → List FsmEvent
missing assigned = nav_started ∷ nav_succeeded ∷ []
missing navigating = nav_succeeded ∷ []
missing executing = []
missing recovering = nav_started ∷ nav_succeeded ∷ []
missing _ = task_received ∷ nav_started ∷ nav_succeeded ∷ []

missing-step :
    (s : RobotState) (e : FsmEvent) (es : List FsmEvent)
    → Embeds (missing (process s e).0) es
    → Embeds (missing s) (e ∷ es)
unfolding process
missing-step idle task_received es m = keep m
missing-step idle low_battery es m = skip m
missing-step idle _ es m = skip m
missing-step assigned nav_started es m = keep m
missing-step assigned low_battery es m = skip (Embeds-tail m)
missing-step assigned _ es m = skip m
missing-step navigating nav_succeeded es m = keep done
missing-step navigating nav_failed es m = skip (Embeds-tail m)
missing-step navigating fault_injected es m = skip (Embeds-tail m)
missing-step navigating low_battery es m = skip (Embeds-tail (Embeds-tail m))
missing-step navigating _ es m = skip m
missing-step executing _ es m = done
missing-step reporting report_sent es m = skip m
missing-step reporting _ es m = skip m
missing-step recovering recovery_done es m = skip m
missing-step recovering recovery_failed es m = skip (Embeds-tail m)
missing-step recovering low_battery es m = skip (Embeds-tail m)
missing-step recovering _ es m = skip m
missing-step charging battery_full es m = skip m
missing-step charging _ es m = skip m

missing-run : (s : RobotState) (es : List FsmEvent) → run s es ≡ executing → Embeds (missing s) es
unfolding run
missing-run s [] h = subst (λ t. Embeds (missing t) []) (sym h) done
missing-run s (e ∷ es) h = missing-step s e es (missing-run (process s e).0 es h)

-- A robot that was idle executes only after it has received a task, started to navigate and
-- arrived, in this order.
executing_needs_arrival :
    (es : List FsmEvent)
    → run idle es ≡ executing
    → Embeds (task_received ∷ nav_started ∷ nav_succeeded ∷ []) es
executing_needs_arrival es h = missing-run idle es h
