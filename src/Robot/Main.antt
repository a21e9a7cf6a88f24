-- ===== src/Robot/Main.antt =====
-- The process of one robot: robot_agent_main.cpp of src/fms_robot_agent, from the node that it
-- makes to its end. The library of managed nodes is a parameter.
pub mod Live
pub mod Silent
use warehouse_fleet_manageme.Common.{
  ℕ, ◌≡◌, refl, Bool, true, false, ◌||◌, ap, arith, if◌then◌else◌,
}
use warehouse_fleet_manageme.Float.{Double}
use warehouse_fleet_manageme.Robot.Agent.{Agent, Publisher}
use warehouse_fleet_manageme.Robot.Agent.Lifecycle.{
  CallbackReturn, success, failure, Parameters, on_configure, on_activate, on_deactivate,
  on_cleanup, on_shutdown,
}

-- The transitions of a managed node, and its primary states.
pub data Transition : Type 0 where
  configure activate deactivate cleanup shutdown : Transition

pub data Primary : Type 0 where
  unconfigured inactive active finalized : Primary

-- What a managed node keeps: whether a transition is registered in its state, and the state after
-- its callback.
pub record Lifecycle (S : Type 0) : Type 0 where
  pub initial : S
  pub primary : S → Primary
  pub registered : Transition → S → Bool
  pub after : Transition → CallbackReturn → S → S

abbrev pub allows : Transition → Primary → Bool
allows configure unconfigured = true
allows activate inactive = true
allows deactivate active = true
allows cleanup inactive = true
allows shutdown finalized = false
allows shutdown _ = true
allows _ _ = false

abbrev pub target : Transition → Primary
target configure = inactive
target activate = active
target deactivate = inactive
target cleanup = unconfigured
target shutdown = finalized

-- What the process relies on of the library: it starts unconfigured, a transition is registered in
-- the states of its documentation, it ends in its target where the callback succeeds, and the
-- callback of `configure` that fails leaves the node unconfigured.
pub record IsManaged {S : Type 0} (library : Lifecycle S) : Type 0 where
  pub starts : library.primary library.initial ≡ unconfigured
  pub registers : (t : Transition) (s : S) → library.registered t s ≡ allows t (library.primary s)
  pub succeeds :
      (t : Transition) (s : S)
      → library.registered t s ≡ true
      → library.primary (library.after t success s) ≡ target t
  pub not_configured :
      (s : S)
      → library.registered configure s ≡ true
      → library.primary (library.after configure failure s) ≡ unconfigured

-- What the process reads from outside.
pub record Surroundings (D : Type 0) : Type 0 where
  pub facing : D → D × D
  pub parameters : Parameters D
  pub tree_loads : Bool
  pub configured_at : ℕ
  pub activated_at : ℕ

pub record RobotProcess (D S : Type 0) : Type 0 where
  pub state : S
  pub agent : Agent D

module _ {D S : Type 0} ⦃d : Double D⦄ (library : Lifecycle S) (w : Surroundings D) where
  abbrev pub callback : Transition → Agent D → Agent D × CallbackReturn
  callback configure a = on_configure w.facing w.parameters w.tree_loads w.configured_at a
  callback activate a = on_activate w.activated_at a
  callback deactivate a = on_deactivate a
  callback cleanup a = on_cleanup a
  callback shutdown a = on_shutdown a

  -- A call such as `node->configure()`: where the transition is not registered, nothing happens.
  unfoldable pub trigger : Transition → RobotProcess D S → RobotProcess D S
  trigger t m =
      let (a, r) = callback t m.agent in
      if library.registered t m.state
      then record { state = library.after t r m.state; agent = a }
      else m

  -- Up to `spin`.
  unfoldable pub start : Agent D → RobotProcess D S
  unfolding trigger
  start a = trigger activate (trigger configure (record { state = library.initial; agent = a }))

  -- From `spin` on; `ok` is what `rclcpp::ok()` says then.
  unfoldable pub finish : Bool → RobotProcess D S → RobotProcess D S
  unfolding trigger
  finish ok m = if ok then trigger shutdown (trigger cleanup (trigger deactivate m)) else m
