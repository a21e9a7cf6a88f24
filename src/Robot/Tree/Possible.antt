-- ===== src/Robot/Tree/Possible.antt =====
-- A task that waits can be done: the steps that bring a robot through bt_xml/robot_agent.xml of
-- src/fms_robot_agent, one after the other.
pub mod Charged
pub mod Engine
pub mod Leaves
pub mod Task
use mathlib.Core.List.{append-nil, append_assoc}
use warehouse_fleet_manageme.Common.{
  ℕ, ◌≡◌, refl, sym, subst, ap, ◌∙◌, true, false, Option, none, some, List, [], ◌∷◌, ◌++◌, arith,
}
use warehouse_fleet_manageme.Float.{Double}
use warehouse_fleet_manageme.Robot.Agent.{Agent, Blackboard}
use warehouse_fleet_manageme.Robot.Nodes.Status.{NodeStatus, running, success, failure}
use warehouse_fleet_manageme.Robot.System.{
  Leaf, Inputs, System, Outside, call, start_leaf, tick_leaf, Run, after, outside, start, tick,
  Reach, next,
}
use warehouse_fleet_manageme.Robot.Tree.{History}
use warehouse_fleet_manageme.Robot.Tree.Possible.Charged.{is_silent, is_timeless}
use warehouse_fleet_manageme.Robot.Tree.Played.{history, is_unhalted, ended}

module _ {D : Type 0} ⦃d : Double D⦄ where
  after_running :
      (l : Leaf) (x : System D × NodeStatus)
      → x.1 ≡ running
      → record { system = x.0; active = some l } ≡ after l x
  after_running l (s, running) e = refl
  after_running l (s, success) e = cc
  after_running l (s, failure) e = cc

  after_success :
      (l : Leaf) (x : System D × NodeStatus)
      → x.1 ≡ success
      → record { system = x.0; active = none } ≡ after l x
  after_success l (s, running) e = cc
  after_success l (s, success) e = refl
  after_success l (s, failure) e = cc

  -- The robot goes on to the run `s'`, and these leaves end on the way.
  abbrev pub Extends : {r s : Run D} → Reach r s → History → Run D → Type 0
  Extends {r} h k s' =
      (h' : Reach r s') × (is_unhalted h' ≡ is_unhalted h)
      × (is_timeless h' ≡ is_timeless h)
      × (history h' ≡ history h ++ k)

  pub hear :
      {r s : Run D} (h : Reach r s) (e : Outside D)
      → is_silent e ≡ true
      → Extends h [] (record s { system = call e s.system })
  hear h e q = (next h (outside e refl), refl, ground arith, sym (append-nil (history h)))

  pub begin :
      {r s : Run D} (h : Reach r s) (l : Leaf) (i : Inputs)
      → s.active ≡ none
      → (start_leaf l i s.system).1 ≡ running
      → Extends h [] (record { system = (start_leaf l i s.system).0; active = some l })
  begin {s = s} h l i q e = (
    next h (start l i q (after_running l (start_leaf l i s.system) e)),
    refl,
    refl,
    ap (λ x. history h ++ ended l x) e,
  )

  pub begin_done :
      {r s : Run D} (h : Reach r s) (l : Leaf) (i : Inputs)
      → s.active ≡ none
      → (start_leaf l i s.system).1 ≡ success
      → Extends h
          ((l, success) ∷ [])
          (record { system = (start_leaf l i s.system).0; active = none })
  begin_done {s = s} h l i q e = (
    next h (start l i q (after_success l (start_leaf l i s.system) e)),
    refl,
    refl,
    ap (λ x. history h ++ ended l x) e,
  )

  pub finish :
      {r s : Run D} (h : Reach r s) (l : Leaf) (i : Inputs)
      → s.active ≡ some l
      → (tick_leaf l i s.system).1 ≡ success
      → Extends h
          ((l, success) ∷ [])
          (record { system = (tick_leaf l i s.system).0; active = none })
  finish {s = s} h l i q e = (
    next h (tick l i q (after_success l (tick_leaf l i s.system) e)),
    refl,
    refl,
    ap (λ x. history h ++ ended l x) e,
  )

  pub Extends-trans :
      {r s s' s'' : Run D} (h : Reach r s) (k k' : History) (x : Extends h k s')
      → Extends x.0 k' s''
      → Extends h (k ++ k') s''
  Extends-trans h k k' (h1, u, m, p) (h2, v, n, q) =
      (h2, v ∙ u, n ∙ m, q ∙ ap (λ y. y ++ k') p ∙ append_assoc (history h) k k')
