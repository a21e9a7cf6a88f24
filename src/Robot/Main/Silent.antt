-- ===== src/Robot/Main/Silent.antt =====
-- A robot whose tree did not load: robot_agent_main.cpp and robot_agent_node.cpp of
-- src/fms_robot_agent.
use warehouse_fleet_manageme.Common.{◌≡◌, refl, subst, sym, false}
use warehouse_fleet_manageme.Float.{Double}
use warehouse_fleet_manageme.Robot.Agent.{Agent}
use warehouse_fleet_manageme.Robot.Agent.Lifecycle.{on_configure}
use warehouse_fleet_manageme.Robot.System.{Run, Reach}
use warehouse_fleet_manageme.Robot.System.Quiet.{IsQuiet, Reach-IsQuiet}
use warehouse_fleet_manageme.Robot.Main.{Lifecycle, IsManaged, Surroundings, start}
use warehouse_fleet_manageme.Robot.Main.Live.{unloaded_start}

module _ {D S : Type 0} ⦃d : Double D⦄ (library : Lifecycle S) (laws : IsManaged library)
    (w : Surroundings D) where
  start-IsQuiet :
      (a : Agent D)
      → w.tree_loads ≡ false
      → IsQuiet a.statuses a.completions (start library w a).agent
  unfolding on_configure
  start-IsQuiet a e = rw (unloaded_start library laws w a e) (record {
    status_pub = refl;
    completion_pub = refl;
    same_statuses = refl;
    same_completions = refl;
  })

  -- Under a library that meets its laws, a robot whose tree did not load publishes no status and no
  -- completion, whatever messages, timers and calls of its leaves come after its start.
  pub unloaded_silent :
      (a : Agent D) {r r' : Run D}
      → w.tree_loads ≡ false
      → r.system.agent ≡ (start library w a).agent
      → Reach r r'
      → (r'.system.agent.statuses ≡ a.statuses) × (r'.system.agent.completions ≡ a.completions)
  unloaded_silent a {r} {r'} e f h =
      let quiet =
        Reach-IsQuiet a.statuses a.completions
          (subst (IsQuiet a.statuses a.completions) (sym f) (start-IsQuiet a e)) h in
      (quiet.same_statuses, quiet.same_completions)
