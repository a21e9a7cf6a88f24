-- ===== src/Robot/Tree/Outcome.antt =====
-- The state in which a task leaves the machine: bt_xml/robot_agent.xml and robot_fsm.cpp of
-- src/fms_robot_agent.
use mathlib.Core.List.{Mem, mem-append_right, mem-append_left, mem-cons_of_mem, mem-cons_self}
use warehouse_fleet_manageme.Common.{
  ℕ, zero, suc, ◌≡◌, refl, sym, subst, ◌∙◌, ◌⊎◌, inl, inr, true, none, [], ◌∷◌, ◌++◌, arith,
}
use warehouse_fleet_manageme.Float.{Double}
use warehouse_fleet_manageme.Robot.Fsm.{
  RobotState, idle, assigned, navigating, executing, process, run,
}
use warehouse_fleet_manageme.Robot.Nodes.Status.{NodeStatus, success, failure}
use warehouse_fleet_manageme.Robot.System.{
  Leg, pick, drop, request, report, nav, recovery, execute, to_leg, Run, Reach,
}
use warehouse_fleet_manageme.Robot.Tree.{Tree, task_execution, History, IsEngine}
use warehouse_fleet_manageme.Robot.Tree.Course.{
  tries, IsDone, HasArrived, HasRecovered, task_course,
}
use warehouse_fleet_manageme.Robot.Tree.Played.{history, is_unhalted}
use warehouse_fleet_manageme.Robot.Tree.States.{Moves, Leads, Reach-Leads}

pub Leads-split :
    (h h' : History) (s u : RobotState)
    → Leads (h ++ h') s u
    → (t : RobotState) × Leads h s t × Leads h' t u
Leads-split [] h' s u e = (s, refl, e)
Leads-split (x ∷ h) h' s u (v, m, e) = let (t, a, b) = Leads-split h h' v u e in (t, (v, m, a), b)

-- The states in which a leg begins.
abbrev pub CanLeave : RobotState → Type 0
CanLeave s = (s ≡ assigned) ⊎ ((s ≡ navigating) ⊎ (s ≡ idle))

pub attempt-CanLeave :
    (l : Leg) (s t u : RobotState)
    → Moves (nav (to_leg l)) failure s t
    → Moves (recovery l) failure t u
    → CanLeave s
    → CanLeave u
unfolding run process
attempt-CanLeave l s t u m k v = ground arith

pub tries-CanLeave :
    (l : Leg) (n : ℕ) (s t : RobotState) → Leads (tries l n) s t → CanLeave s → CanLeave t
tries-CanLeave l zero s t e v = subst CanLeave (sym e) v
tries-CanLeave l (suc n) s t (u, m, (w, k, e)) v =
    tries-CanLeave l n w t e (attempt-CanLeave l s u w m k v)

-- The states in which a leg ends that succeeds.
arrival-Moves :
    (l : Leg) (s t : RobotState)
    → Moves (nav (to_leg l)) success s t
    → CanLeave s
    → (t ≡ executing) ⊎ (t ≡ idle)
unfolding run process
arrival-Moves l s t m v = ground arith

recovery-Moves :
    (l : Leg) (s t u : RobotState)
    → Moves (nav (to_leg l)) failure s t
    → Moves (recovery l) success t u
    → CanLeave s
    → (u ≡ assigned) ⊎ (u ≡ idle)
unfolding run process
recovery-Moves l s t u m k v = ground arith

arrived_moves :
    (l : Leg) (h : History) (s t : RobotState)
    → HasArrived 3 l h success
    → Leads h s t
    → CanLeave s
    → (t ≡ executing) ⊎ (t ≡ idle)
arrived_moves l h s t (k, _, p, _) e v =
    let (u, a, (w, m, b)) = Leads-split (tries l k) _ s t (subst (λ x. Leads x s t) p e) in
    arrival-Moves l u t (subst (λ x. Moves (nav (to_leg l)) success u x) (sym b) m)
      (tries-CanLeave l k s u a v)

recovered_moves :
    (l : Leg) (h : History) (s t : RobotState)
    → HasRecovered 3 l h success
    → Leads h s t
    → CanLeave s
    → (t ≡ assigned) ⊎ (t ≡ idle)
recovered_moves l h s t (k, _, p, _) e v =
    let (u, a, (w, m, (x, n, b))) = Leads-split (tries l k) _ s t (subst (λ x. Leads x s t) p e) in
    recovery-Moves l u w t m (subst (λ x. Moves (recovery l) success w x) (sym b) n)
      (tries-CanLeave l k s u a v)

-- A leg that succeeds ends in one of these states, and in ASSIGNED only by a recovery.
pub leg_moves :
    (l : Leg) (h : History) (s t : RobotState)
    → IsDone l h
    → Leads h s t
    → CanLeave s
    → (t ≡ executing) ⊎ ((t ≡ idle) ⊎ ((t ≡ assigned) × HasRecovered 3 l h success))
leg_moves l h s t (inl x) e v = ground (arith, arrived_moves l h s t x e v)
leg_moves l h s t (inr x) e v = ground (arith, recovered_moves l h s t x e v)

pub pick-Moves :
    (s t : RobotState) (P : Type 0)
    → (s ≡ executing) ⊎ ((s ≡ idle) ⊎ ((s ≡ assigned) × P))
    → Moves (execute pick) success s t
    → CanLeave t
unfolding run process
pick-Moves s t P v m = ground arith

report-Moves :
    (s t u : RobotState) (P : Type 0)
    → (s ≡ executing) ⊎ ((s ≡ idle) ⊎ ((s ≡ assigned) × P))
    → Moves (execute drop) success s t
    → Moves report success t u
    → (u ≡ idle) ⊎ ((u ≡ assigned) × P)
unfolding run process
report-Moves s t u P v m n = ground arith

recovered-Mem : (l : Leg) (h : History) → HasRecovered 3 l h success → Mem (recovery l, success) h
recovered-Mem l h (k, _, p, _) =
    subst (Mem (recovery l, success)) (sym p)
      (mem-append_right (tries l k) (mem-cons_of_mem _ mem-cons_self))

abbrev course : History → History → History
course to_pick to_drop =
    ((request, success) ∷ to_pick)
    ++ (((execute pick, success) ∷ to_drop) ++ ((execute drop, success) ∷ (report, success) ∷ []))

-- The states of a robot between two tasks.
abbrev pub IsBetween : RobotState → Type 0
IsBetween s = (s ≡ idle) ⊎ (s ≡ assigned)

pub request-Moves : (s t : RobotState) → IsBetween s → Moves request success s t → t ≡ assigned
unfolding run process
request-Moves s t b m = ground arith

-- Where the leaves of a task lead a machine between two tasks.
task-Moves :
    (to_pick to_drop : History) (s t : RobotState)
    → IsBetween s
    → IsDone pick to_pick
    → IsDone drop to_drop
    → Leads (course to_pick to_drop) s t
    → (t ≡ idle) ⊎ ((t ≡ assigned) × HasRecovered 3 drop to_drop success)
task-Moves to_pick to_drop s t between x y (a, ma, e) =
    let (b, mb, (c, mc, e2)) = Leads-split to_pick _ a t e in
    let (f, mf, (g, mg, (k, mk, mt))) = Leads-split to_drop _ c t e2 in
    let leg1 = leg_moves pick to_pick a b x mb (inl (request-Moves s a between ma)) in
    let leg2 = leg_moves drop to_drop c f y mf (pick-Moves b c _ leg1 mc) in
    report-Moves f g t _ leg2 mg (mt ∙ mk)

module _ {D : Type 0} ⦃d : Double D⦄ (Ends : Tree → History → NodeStatus → Type 0)
    (engine : IsEngine Ends) where
  -- Under an engine that meets its laws, a robot in IDLE or ASSIGNED that runs no leaf, whose tree
  -- finishes a task without halting a leaf, and that runs no leaf after it, is IDLE, or it is left in
  -- ASSIGNED by a recovery that succeeded on the way to the drop.
  pub task_state :
      {r r' : Run D} (h : Reach r r')
      → r.active ≡ none
      → IsBetween r.system.agent.fsm
      → is_unhalted h ≡ true
      → r'.active ≡ none
      → Ends task_execution (history h) success
      → (r'.system.agent.fsm ≡ idle)
        ⊎ ((r'.system.agent.fsm ≡ assigned) × Mem (recovery drop, success) (history h))
  task_state {r} {r'} h e f u e' w =
      let (to_pick, to_drop, x, y, p) = task_course Ends engine (history h) w in
      let led = Reach-Leads h e u e' in
      let along = subst (λ y. Leads y r.system.agent.fsm r'.system.agent.fsm) p led in
      elim (task-Moves to_pick to_drop r.system.agent.fsm r'.system.agent.fsm f x y along) [
        | inl q ↦ inl q
        | inr (q, z) ↦ inr (
          q,
          subst (Mem (recovery drop, success)) (sym p) (
              mem-append_right ((request, success) ∷ to_pick)
                (mem-append_left _ (mem-cons_of_mem _ (recovered-Mem drop to_drop z)))),
        )
      ]

-- The course of a task whose drive to the drop failed once and then recovered.
abbrev pub recovered_course : History
recovered_course =
    (request, success)
    ∷ (nav (to_leg pick), success)
    ∷ (execute pick, success)
    ∷ (nav (to_leg drop), failure)
    ∷ (recovery drop, success)
    ∷ (execute drop, success)
    ∷ (report, success)
    ∷ []

recovered_course_moves : (t : RobotState) → Leads recovered_course idle t → t ≡ assigned
unfolding run process
recovered_course_moves t e = ground arith

module _ {D : Type 0} ⦃d : Double D⦄ where
  -- An IDLE robot that runs no leaf and does a task without a leaf halted, whose drive to the pick
  -- arrives at the first attempt, whose first drive to the drop fails, and whose recovery then
  -- succeeds at once, is in ASSIGNED after it has reported the task, when no leaf runs.
  pub recovered_stays_assigned :
      {r r' : Run D} (h : Reach r r')
      → r.active ≡ none
      → r.system.agent.fsm ≡ idle
      → is_unhalted h ≡ true
      → r'.active ≡ none
      → history h ≡ recovered_course
      → r'.system.agent.fsm ≡ assigned
  recovered_stays_assigned {r' = r'} h e f u e' p =
      let led = Reach-Leads h e u e' in
      let at_idle = subst (λ s. Leads (history h) s r'.system.agent.fsm) f led in
      recovered_course_moves r'.system.agent.fsm
        (subst (λ y. Leads y idle r'.system.agent.fsm) p at_idle)
