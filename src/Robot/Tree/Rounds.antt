-- ===== src/Robot/Tree/Rounds.antt =====
-- Rounds of the tree: tasks that were done or given up, and charges, one after the other, with
-- bt_xml/robot_agent.xml of src/fms_robot_agent.
use warehouse_fleet_manageme.Common.{
  ℕ, zero, suc, ◌≡◌, ◌≢◌, sym, subst, ◌⊎◌, inl, inr, true, none, ◌++◌, arith,
}
use warehouse_fleet_manageme.Float.{Double}
use warehouse_fleet_manageme.Robot.Fsm.{
  RobotState, idle, assigned, executing, reporting, process, run,
}
use warehouse_fleet_manageme.Robot.Nodes.Status.{NodeStatus, success, failure}
use warehouse_fleet_manageme.Robot.System.{
  Leg, pick, drop, Leaf, request, report, nav, recovery, execute, to_leg, Run, Reach,
}
use warehouse_fleet_manageme.Robot.Tree.{
  Tree, leaf, sequence, Children, child, charge_when_low, nav_retry, task_execution, History,
  IsEngine,
}
use warehouse_fleet_manageme.Robot.Tree.Course.{tries, leg_outcome, leg_succeeds}
use warehouse_fleet_manageme.Robot.Tree.Played.{history, is_unhalted}
use warehouse_fleet_manageme.Robot.Tree.States.{Moves, Leads, Reach-Leads}
use warehouse_fleet_manageme.Robot.Tree.Outcome.{
  IsBetween, CanLeave, Leads-split, request-Moves, leg_moves, pick-Moves, task_state,
}
use warehouse_fleet_manageme.Robot.Tree.Charged.{charge_state}

-- A recovery that failed leaves the machine in IDLE or ASSIGNED.
attempt-IsBetween :
    (l : Leg) (s t u : RobotState)
    → Moves (nav (to_leg l)) failure s t
    → Moves (recovery l) failure t u
    → CanLeave s
    → IsBetween u
unfolding run process
attempt-IsBetween l s t u m k v = ground arith

between-CanLeave : (s : RobotState) → IsBetween s → CanLeave s
between-CanLeave s v = ground arith

tries-IsBetween :
    (l : Leg) (n : ℕ) (s t : RobotState) → Leads (tries l n) s t → IsBetween s → IsBetween t
tries-IsBetween l zero s t e v = subst IsBetween (sym e) v
tries-IsBetween l (suc n) s t (u, m, (w, k, e)) v =
    tries-IsBetween l n w t e (attempt-IsBetween l s u w m k (between-CanLeave s v))

-- A leg that is given up leaves it there too.
given_up-IsBetween : (l : Leg) (s t : RobotState) → Leads (tries l 3) s t → CanLeave s → IsBetween t
given_up-IsBetween l s t (u, m, (w, k, e)) v =
    tries-IsBetween l 2 w t e (attempt-IsBetween l s u w m k v)

between-ne-reporting : (s : RobotState) → IsBetween s → s ≢ reporting
between-ne-reporting s v = ground arith

module _ (Ends : Tree → History → NodeStatus → Type 0) (engine : IsEngine Ends) where
  leg_given_up :
      (l : Leg) (h : History) (s t : RobotState)
      → Ends (nav_retry 3 l) h failure
      → Leads h s t
      → CanLeave s
      → IsBetween t
  leg_given_up l h s t e k v = elim (leg_outcome Ends engine 3 l h failure e) [
    | inl (_, _, _, w) ↦ cc
    | inr (inl (_, _, _, w)) ↦ cc
    | inr (inr (p, _)) ↦ given_up-IsBetween l s t (subst (λ x. Leads x s t) p k) v
  ]

  -- A leaf that cannot fail, first in a sequence that fails: it succeeds and the rest fails.
  passed :
      (l : Leaf) (ts : Children) (h : History) (s t : RobotState)
      → ((u : RobotState) → ¬ Moves l failure s u)
      → Ends (sequence (child (leaf l) ts)) h failure
      → Leads h s t
      → (rest : History) × (u : RobotState) × Moves l success s u
        × Ends (sequence ts) rest failure
        × Leads rest u t
  passed l ts h s t n e k = elim (engine.sequence_child (leaf l) ts h failure e) [
    | inl (f, _) ↦
        let (u, m, _) = subst (λ x. Leads x s t) (engine.leaf_ends l h failure f) k in
        absurd (n u m)
    | inr (h1, h2, f, g, p) ↦
        let whole =
          subst (λ x. Leads (x ++ h2) s t) (engine.leaf_ends l h1 success f)
            (subst (λ x. Leads x s t) p k) in
        let (u, m, b) = whole in (h2, u, m, g, b)
  ]

  -- A leg, first in a sequence that fails.
  drive_failed :
      (l : Leg) (ts : Children) (h : History) (s t : RobotState)
      → Ends (sequence (child (nav_retry 3 l) ts)) h failure
      → Leads h s t
      → CanLeave s
      → ((rest : History) (u : RobotState) (P : Type 0)
          → (u ≡ executing) ⊎ ((u ≡ idle) ⊎ ((u ≡ assigned) × P))
          → Ends (sequence ts) rest failure
          → Leads rest u t
          → IsBetween t)
      → IsBetween t
  drive_failed l ts h s t e k v after =
      elim (engine.sequence_child (nav_retry 3 l) ts h failure e) [
        | inl (f, _) ↦ leg_given_up l h s t f k v
        | inr (h1, h2, f, g, p) ↦
            let (u, a, b) = Leads-split h1 h2 s t (subst (λ x. Leads x s t) p k) in
            after h2 u _ (leg_moves l h1 s u (leg_succeeds Ends engine l h1 f) a v) g b
      ]

  -- A task that is given up leaves the machine between two tasks.
  failed-IsBetween :
      (h : History) (s t : RobotState)
      → Ends task_execution h failure
      → Leads h s t
      → IsBetween s
      → IsBetween t
  failed-IsBetween h s t e k v =
      let (h1, a, m, e1, k1) = passed request _ h s t (λ u w. w) e k in
      drive_failed pick _ h1 a t e1 k1 (inl (request-Moves s a v m)) (λ h2 b P at e2 k2.
        let (h3, c, m3, e3, k3) = passed (execute pick) _ h2 b t (λ u w. w) e2 k2 in
        drive_failed drop _ h3 c t e3 k3 (pick-Moves b c P at m3) (λ h4 f Q at' e4 k4.
          let (h5, g, m5, e5, k5) = passed (execute drop) _ h4 f t (λ u w. w) e4 k4 in
          let (h6, x, m6, e6, k6) = passed report _ h5 g t (λ u w. w) e5 k5 in
          let (_, w) = engine.sequence_empty h6 failure e6 in cc))

  module _ {D : Type 0} ⦃d : Double D⦄ where
    -- Rounds of the tree, the last one outermost: each is a task that was done or given up, or a
    -- charge, with no leaf halted in it.
    pub data Rounds (r : Run D) : Run D → Type 0 where
      here : Rounds r r
      done :
          {s t : Run D}
          → Rounds r s
          → (h : Reach s t) → is_unhalted h ≡ true
          → t.active ≡ none
          → Ends task_execution (history h) success
          → Rounds r t
      given_up :
          {s t : Run D}
          → Rounds r s
          → (h : Reach s t) → is_unhalted h ≡ true
          → t.active ≡ none
          → Ends task_execution (history h) failure
          → Rounds r t
      charged :
          {s t : Run D}
          → Rounds r s
          → (h : Reach s t) → is_unhalted h ≡ true
          → t.active ≡ none
          → Ends charge_when_low (history h) success
          → Rounds r t

    -- A robot that runs no leaf and is between two tasks.
    pub record IsFree (r : Run D) : Type 0 where
      pub inactive : r.active ≡ none
      pub between : IsBetween r.system.agent.fsm

    done-IsFree :
        {s t : Run D} (h : Reach s t)
        → is_unhalted h ≡ true
        → t.active ≡ none
        → Ends task_execution (history h) success
        → IsFree s
        → IsFree t
    done-IsFree h u e w v = record {
      inactive = e;
      between = elim (task_state Ends engine h v.inactive v.between u e w) [
        | inl q ↦ inl q
        | inr (q, _) ↦ inr q
      ];
    }

    -- Under an engine that meets its laws, take a robot that runs no leaf, in IDLE or ASSIGNED, and
    -- any rounds one after the other, in each of which a task is done, a task is given up or the
    -- battery is charged, no leaf is halted, and none runs at the end. After them the machine is in
    -- IDLE or ASSIGNED again, and no leaf runs.
    pub rounds-IsFree : {r r' : Run D} → Rounds r r' → IsFree r → IsFree r'
    rounds-IsFree here v = v
    rounds-IsFree (done rs h u e w) v = done-IsFree h u e w (rounds-IsFree rs v)
    rounds-IsFree (given_up {s = s} {t = t} rs h u e w) v =
        let before = rounds-IsFree rs v in
        record {
          inactive = e;
          between =
              failed-IsBetween (history h) s.system.agent.fsm t.system.agent.fsm w
                (Reach-Leads h before.inactive u e) before.between;
        }
    rounds-IsFree (charged rs h u e w) v =
        let before = rounds-IsFree rs v in
        record {
          inactive = e;
          between = inl (
              charge_state Ends engine h before.inactive (between-ne-reporting _ before.between) u e
                w);
        }
