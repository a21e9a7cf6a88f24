-- ===== src/Robot/Nodes/Navigate/Goals.antt =====
-- What the callbacks of the navigation goals lead to: navigate_to_pose_bt.cpp of
-- src/fms_robot_agent.
use warehouse_fleet_manageme.Common.{
  ℕ, ◌≡◌, refl, sym, subst, Bool, true, false, ◌==◌, Option, some, List, [], ◌∷◌, if◌then◌else◌,
  arith, Bool-cases, inl, inr,
}
use warehouse_fleet_manageme.Messages.{PoseStamped}
use warehouse_fleet_manageme.Robot.Fsm.{FsmEvent, nav_succeeded, nav_failed}
use warehouse_fleet_manageme.Robot.Agent.{Agent, fire}
use warehouse_fleet_manageme.Robot.Nodes.Status.{NodeStatus, success, failure, Shared}
use warehouse_fleet_manageme.Robot.Nodes.Navigate.{
  NavState, NavNode, ResultCode, is_succeeded, new_state, goal_response_callback, result_callback,
  conclude, observe, on_start, on_running,
}

-- A callback, and the goal that it belongs to.
pub data NavCall : Type 0 where
  response : ℕ → Option ℕ → NavCall
  result : ℕ → ResultCode → NavCall

abbrev pub goal_of : NavCall → ℕ
goal_of (response goal handle) = goal
goal_of (result goal code) = goal

abbrev pub deliver : NavCall → NavNode → NavNode
deliver (response goal handle) n = goal_response_callback goal handle n
deliver (result goal code) n = result_callback goal code n

abbrev pub deliver_all : List NavCall → NavNode → NavNode
deliver_all [] n = n
deliver_all (c ∷ cs) n = deliver_all cs (deliver c n)

-- The callbacks of one goal.
abbrev pub own : ℕ → List NavCall → List NavCall
own goal [] = []
own goal (c ∷ cs) = let rest = own goal cs in if goal == goal_of c then c ∷ rest else rest

deliver_other :
    (c : NavCall) (s : Shared NavState)
    → (s.goal == goal_of c) ≡ false
    → deliver c (some s) ≡ some s
unfolding goal_response_callback result_callback
deliver_other (response goal handle) s e = rw e
deliver_other (result goal code) s e = rw e

either_state :
    (b : Bool) (s : Shared NavState) (t : NavState)
    → (u : NavState) × ((if b then some (record s { state = t }) else some s)
        ≡ some (record s { state = u }))
either_state true s t = (t, refl)
either_state false s t = (s.state, refl)

deliver_own :
    (c : NavCall) (s : Shared NavState)
    → (t : NavState) × (deliver c (some s) ≡ some (record s { state = t }))
unfolding goal_response_callback result_callback
deliver_own (response goal handle) s = either_state _ s _
deliver_own (result goal code) s = either_state _ s _

-- The callbacks of goals other than the one that the leaf waits for have no effect, in whatever
-- order they come.
others_ignored :
    (cs : List NavCall) (s : Shared NavState)
    → deliver_all cs (some s) ≡ deliver_all (own s.goal cs) (some s)
others_ignored [] s = refl
others_ignored (c ∷ cs) s = elim (Bool-cases (s.goal == goal_of c)) [
  | inl e ↦
      let (t, d) = deliver_own c s in
      rw e (
        subst (λ n. deliver_all cs n ≡ deliver_all (own s.goal cs) n) (sym d)
          (others_ignored cs (record s { state = t })))
  | inr e ↦ rw (e, deliver_other c s e) (others_ignored cs s)
]

-- The event and the status that a result leads to.
abbrev pub outcome : ResultCode → FsmEvent × NodeStatus
outcome code = if is_succeeded code then (nav_succeeded, success) else (nav_failed, failure)

module _ {D : Type 0} where
  -- When a goal is sent and its callbacks are that it was accepted and then its result, whatever
  -- callbacks of other goals come between, the next tick without a fault stops the robot and
  -- returns success exactly if the goal succeeded, and the machine gets NAV_SUCCEEDED or
  -- NAV_FAILED.
  pub drive_outcome :
      (goal : PoseStamped D) (now handle : ℕ) (code : ResultCode) (n : NavNode) (a a' : Agent D)
      (cs : List NavCall)
      → own a.next_goal cs ≡ (response a.next_goal (some handle) ∷ result a.next_goal code ∷ [])
      → a'.fault_injected ≡ false
      → let n' = deliver_all cs (on_start (some goal) true now n a).0 in
        ((on_running n' a').1 ≡ fire (record a' { is_moving = false }) (outcome code).0)
        × ((on_running n' a').2 ≡ (outcome code).1)
  unfolding on_start on_running observe conclude goal_response_callback result_callback
  drive_outcome goal now handle code n a a' cs e f =
      rw (f, others_ignored cs (record { goal = a.next_goal; state = new_state }), e) (ground arith)
