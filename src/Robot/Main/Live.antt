-- ===== src/Robot/Main/Live.antt =====
-- A robot's process at its start and at its end: robot_agent_main.cpp of src/fms_robot_agent.
use warehouse_fleet_manageme.Common.{
  ◌≡◌, refl, sym, subst, ◌∙◌, ap, Bool-cases, inl, inr, Bool, true, false, if◌then◌else◌,
}
use warehouse_fleet_manageme.Float.{Double}
use warehouse_fleet_manageme.Robot.Agent.{Agent, Publisher}
use warehouse_fleet_manageme.Robot.Agent.Lifecycle.{
  success, failure, on_configure, on_activate, on_deactivate, on_cleanup, on_shutdown,
}
use warehouse_fleet_manageme.Robot.Main.{
  Transition, configure, activate, deactivate, cleanup, shutdown, unconfigured, active, finalized,
  Lifecycle, allows, target, IsManaged, Surroundings, RobotProcess, callback, trigger, start,
  finish,
}

abbrev pub if_loaded : Bool → Publisher
if_loaded true = Publisher.active
if_loaded false = Publisher.inactive

-- The node works: it has timers and a tree, its publishers are active, and it takes tasks.
pub record IsStarted {D S : Type 0} (library : Lifecycle S) (tree_loads : Bool)
    (m : RobotProcess D S) : Type 0 where
  pub state : library.primary m.state ≡ (if tree_loads then active else unconfigured)
  pub has_timers : m.agent.has_timers ≡ tree_loads
  pub has_tree : m.agent.has_tree ≡ tree_loads
  pub status_pub : m.agent.status_pub ≡ if_loaded tree_loads
  pub completion_pub : m.agent.completion_pub ≡ if_loaded tree_loads
  pub has_task_sub : m.agent.has_task_sub ≡ true

-- The node `before` is done: it has no timer, tree, subscription and client, and no publisher is
-- active. The callback groups, the service of faults and the transforms are as they were.
pub record IsFinished {D S : Type 0} (library : Lifecycle S) (before : Agent D)
    (m : RobotProcess D S) : Type 0 where
  pub state : library.primary m.state ≡ finalized
  pub has_timers : m.agent.has_timers ≡ false
  pub has_tree : m.agent.has_tree ≡ false
  pub has_task_sub : m.agent.has_task_sub ≡ false
  pub has_clients : m.agent.has_clients ≡ false
  pub has_callback_groups : m.agent.has_callback_groups ≡ before.has_callback_groups
  pub has_fault_srv : m.agent.has_fault_srv ≡ before.has_fault_srv
  pub has_tf : m.agent.has_tf ≡ before.has_tf
  pub status_pub : m.agent.status_pub ≡ Publisher.inactive
  pub completion_pub : m.agent.completion_pub ≡ Publisher.inactive

module _ {D S : Type 0} ⦃d : Double D⦄ (library : Lifecycle S) (laws : IsManaged library)
    (w : Surroundings D) where
  -- In a state that allows it, a transition runs its callback.
  triggered :
      (t : Transition) (m : RobotProcess D S)
      → allows t (library.primary m.state) ≡ true
      → trigger library w t m ≡ record {
        state = library.after t (callback library w t m.agent).1 m.state;
        agent = (callback library w t m.agent).0;
      }
  unfolding trigger
  triggered t m e = rw (laws.registers t m.state, e)

  -- It does so with a callback that succeeds.
  moved :
      (t : Transition) (m : RobotProcess D S) (a : Agent D)
      → allows t (library.primary m.state) ≡ true
      → callback library w t m.agent ≡ (a, success)
      → (s : S) × (library.primary s ≡ target t)
        × (trigger library w t m ≡ record { state = s; agent = a })
  moved t m a e f = (
    library.after t success m.state,
    laws.succeeds t m.state (rw (laws.registers t m.state, e) refl),
    rw (triggered t m e, f) refl,
  )

  starts_loaded : (a : Agent D) → w.tree_loads ≡ true → IsStarted library true (start library w a)
  unfolding start on_configure on_activate
  starts_loaded a e =
      let first = (on_configure w.facing w.parameters true w.configured_at a).0 in
      let (s1, p1, e1) =
        moved configure (record { state = library.initial; agent = a }) first (rw laws.starts refl)
          (rw e refl) in
      let (s2, p2, e2) =
        moved activate (record { state = s1; agent = first }) (on_activate w.activated_at first).0
          (rw p1 refl) refl in
      subst (IsStarted library true) (sym (ap (trigger library w activate) e1 ∙ e2)) (record {
        state = p2;
        has_timers = refl;
        has_tree = refl;
        status_pub = refl;
        completion_pub = refl;
        has_task_sub = refl;
      })

  -- Where the tree does not load, `activate` is not registered, and the node is as `on_configure`
  -- left it.
  pub unloaded_start :
      (a : Agent D)
      → w.tree_loads ≡ false
      → start library w a ≡ record {
        state = library.after configure failure library.initial;
        agent = (on_configure w.facing w.parameters false w.configured_at a).0;
      }
  unfolding start on_configure trigger
  unloaded_start a e =
      let first = (on_configure w.facing w.parameters false w.configured_at a).0 in
      let r = laws.registers configure library.initial ∙ ap (allows configure) laws.starts in
      let p1 = laws.not_configured library.initial r in
      let e1 : trigger library w configure (record { state = library.initial; agent = a })
          ≡ record { state = library.after configure failure library.initial; agent = first } =
        rw (r, e) refl in
      let stays : trigger library w activate
            (record { state = library.after configure failure library.initial; agent = first })
          ≡ record { state = library.after configure failure library.initial; agent = first } =
        rw (laws.registers activate (library.after configure failure library.initial), p1) refl in
      ap (trigger library w activate) e1 ∙ stays

  starts_unloaded :
      (a : Agent D)
      → w.tree_loads ≡ false
      → a.has_timers ≡ false
      → a.has_tree ≡ false
      → IsStarted library false (start library w a)
  unfolding on_configure
  starts_unloaded a e f g = subst (IsStarted library false) (sym (unloaded_start a e)) (record {
    state =
        laws.not_configured library.initial
          (laws.registers configure library.initial ∙ ap (allows configure) laws.starts);
    has_timers = f;
    has_tree = g;
    status_pub = refl;
    completion_pub = refl;
    has_task_sub = refl;
  })

  -- Under a library that meets its laws, from a node without timers and tree, the process comes to
  -- a node that works if the tree loads. If it does not, the node stays unconfigured, has no timers
  -- and no active publisher, and still takes tasks.
  pub start-IsStarted :
      (a : Agent D)
      → a.has_timers ≡ false
      → a.has_tree ≡ false
      → IsStarted library w.tree_loads (start library w a)
  start-IsStarted a f g = elim (Bool-cases w.tree_loads) [
    | inl e ↦ subst (λ b. IsStarted library b (start library w a)) (sym e) (starts_loaded a e)
    | inr e ↦ subst (λ b. IsStarted library b (start library w a)) (sym e) (starts_unloaded a e f g)
  ]

  -- Under a library that meets its laws, and where the context is still valid when `spin` returns,
  -- an active node ends finalized, with its timers, its tree, its subscription and its action clients
  -- released and its publishers inactive. The callback groups, the service of faults and the buffer
  -- and listener of the transforms are not released: they are as they were.
  pub finish-IsFinished :
      (m : RobotProcess D S)
      → library.primary m.state ≡ active
      → IsFinished library m.agent (finish library w true m)
  unfolding finish on_deactivate on_cleanup on_shutdown
  finish-IsFinished m e =
      let first = (on_deactivate m.agent).0 in
      let second = (on_cleanup first).0 in
      let (s1, p1, e1) = moved deactivate m first (rw e refl) refl in
      let (s2, p2, e2) =
        moved cleanup (record { state = s1; agent = first }) second (rw p1 refl) refl in
      let (s3, p3, e3) =
        moved shutdown (record { state = s2; agent = second }) (on_shutdown second).0 (rw p2 refl)
          refl in
      subst (IsFinished library m.agent)
        (sym (
          ap (λ n. trigger library w shutdown (trigger library w cleanup n)) e1
          ∙ ap (trigger library w shutdown) e2
          ∙ e3))
        (record {
          state = p3;
          has_timers = refl;
          has_tree = refl;
          has_task_sub = refl;
          has_clients = refl;
          has_callback_groups = refl;
          has_fault_srv = refl;
          has_tf = refl;
          status_pub = refl;
          completion_pub = refl;
        })
