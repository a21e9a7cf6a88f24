-- ===== src/Examples/Tree.antt =====
-- Courses of a task through the tree, under an engine that only runs to its end what the tree says:
-- bt_xml/robot_agent.xml of src/fms_robot_agent.
use warehouse_fleet_manageme.Common.{ℕ, zero, suc, ◌≡◌, refl, ◌⊎◌, inl, inr, [], ◌∷◌, ◌++◌}
use warehouse_fleet_manageme.Robot.Nodes.Status.{NodeStatus, success, failure}
use warehouse_fleet_manageme.Robot.System.{
  pick, drop, Leaf, request, report, nav, recovery, execute, to_leg,
}
use warehouse_fleet_manageme.Robot.Tree.{
  Tree, leaf, inverter, retry_until_successful, sequence, fallback, Children, no_child, child,
  nav_retry, task_execution, History, IsEngine,
}
use warehouse_fleet_manageme.Robot.Tree.Course.{
  tries, HasArrived, HasRecovered, HasGivenUp, leg_outcome, IsDone, task_course,
}

pub data Runs : Tree → History → NodeStatus → Type 0 where
  leaf_succeeded : (l : Leaf) → Runs (leaf l) ((l, success) ∷ []) success
  leaf_failed : (l : Leaf) → Runs (leaf l) ((l, failure) ∷ []) failure
  inverted_success : {t : Tree} {h : History} → Runs t h success → Runs (inverter t) h failure
  inverted_failure : {t : Tree} {h : History} → Runs t h failure → Runs (inverter t) h success
  sequence_over : Runs (sequence no_child) [] success
  sequence_stop :
      {t : Tree} {ts : Children} {h : History}
      → Runs t h failure
      → Runs (sequence (child t ts)) h failure
  sequence_on :
      {t : Tree} {ts : Children} {h h1 h2 : History} {r : NodeStatus}
      → Runs t h1 success
      → Runs (sequence ts) h2 r
      → h ≡ h1 ++ h2
      → Runs (sequence (child t ts)) h r
  fallback_over : Runs (fallback no_child) [] failure
  fallback_stop :
      {t : Tree} {ts : Children} {h : History}
      → Runs t h success
      → Runs (fallback (child t ts)) h success
  fallback_on :
      {t : Tree} {ts : Children} {h h1 h2 : History} {r : NodeStatus}
      → Runs t h1 failure
      → Runs (fallback ts) h2 r
      → h ≡ h1 ++ h2
      → Runs (fallback (child t ts)) h r
  no_attempt : {t : Tree} → Runs (retry_until_successful zero t) [] failure
  attempt_succeeded :
      {n : ℕ} {t : Tree} {h : History}
      → Runs t h success
      → Runs (retry_until_successful (suc n) t) h success
  attempt_failed :
      {n : ℕ} {t : Tree} {h h1 h2 : History} {r : NodeStatus}
      → Runs t h1 failure
      → Runs (retry_until_successful n t) h2 r
      → h ≡ h1 ++ h2
      → Runs (retry_until_successful (suc n) t) h r

run_leaf : (l : Leaf) (h : History) (r : NodeStatus) → Runs (leaf l) h r → h ≡ (l, r) ∷ []
run_leaf l _ _ (leaf_succeeded _) = refl
run_leaf l _ _ (leaf_failed _) = refl

run_inverter :
    (t : Tree) (h : History) (r : NodeStatus)
    → Runs (inverter t) h r
    → (Runs t h success × (r ≡ failure)) ⊎ (Runs t h failure × (r ≡ success))
run_inverter t h _ (inverted_success e) = inl (e, refl)
run_inverter t h _ (inverted_failure e) = inr (e, refl)

run_sequence_empty :
    (h : History) (r : NodeStatus) → Runs (sequence no_child) h r → (h ≡ []) × (r ≡ success)
run_sequence_empty _ _ sequence_over = (refl, refl)

run_sequence :
    (t : Tree) (ts : Children) (h : History) (r : NodeStatus)
    → Runs (sequence (child t ts)) h r
    → (Runs t h failure × (r ≡ failure))
      ⊎ ((h1 h2 : History) × Runs t h1 success × Runs (sequence ts) h2 r × (h ≡ h1 ++ h2))
run_sequence t ts h _ (sequence_stop e) = inl (e, refl)
run_sequence t ts h r (sequence_on {h1 = h1} {h2 = h2} e f p) = inr (h1, h2, e, f, p)

run_fallback_empty :
    (h : History) (r : NodeStatus) → Runs (fallback no_child) h r → (h ≡ []) × (r ≡ failure)
run_fallback_empty _ _ fallback_over = (refl, refl)

run_fallback :
    (t : Tree) (ts : Children) (h : History) (r : NodeStatus)
    → Runs (fallback (child t ts)) h r
    → (Runs t h success × (r ≡ success))
      ⊎ ((h1 h2 : History) × Runs t h1 failure × Runs (fallback ts) h2 r × (h ≡ h1 ++ h2))
run_fallback t ts h _ (fallback_stop e) = inl (e, refl)
run_fallback t ts h r (fallback_on {h1 = h1} {h2 = h2} e f p) = inr (h1, h2, e, f, p)

run_retry_over :
    (t : Tree) (h : History) (r : NodeStatus)
    → Runs (retry_until_successful zero t) h r
    → (h ≡ []) × (r ≡ failure)
run_retry_over t _ _ no_attempt = (refl, refl)

run_retry :
    (n : ℕ) (t : Tree) (h : History) (r : NodeStatus)
    → Runs (retry_until_successful (suc n) t) h r
    → (Runs t h success × (r ≡ success))
      ⊎ ((h1 h2 : History) × Runs t h1 failure
          × Runs (retry_until_successful n t) h2 r
          × (h ≡ h1 ++ h2))
run_retry n t h _ (attempt_succeeded e) = inl (e, refl)
run_retry n t h r (attempt_failed {h1 = h1} {h2 = h2} e f p) = inr (h1, h2, e, f, p)

pub Runs-IsEngine : IsEngine Runs
Runs-IsEngine = record {
  leaf_ends = run_leaf;
  inverter_ends = run_inverter;
  sequence_empty = run_sequence_empty;
  sequence_child = run_sequence;
  fallback_empty = run_fallback_empty;
  fallback_child = run_fallback;
  retry_over = run_retry_over;
  retry_again = run_retry;
}

-- The drive to the pick fails, and its recovery succeeds.
abbrev recovered : History
recovered = (nav (to_leg pick), failure) ∷ (recovery pick, success) ∷ []

recovered_ends : Runs (nav_retry 3 pick) recovered success
recovered_ends =
    attempt_succeeded (fallback_on (leaf_failed _) (fallback_stop (leaf_succeeded _)) refl)

abbrev arrived : History
arrived = (nav (to_leg drop), success) ∷ []

pub arrived_ends : Runs (nav_retry 3 drop) arrived success
arrived_ends = attempt_succeeded (fallback_stop (leaf_succeeded _))

abbrev course : History
course =
    ((request, success) ∷ recovered)
    ++ (((execute pick, success) ∷ arrived) ++ ((execute drop, success) ∷ (report, success) ∷ []))

course_ends : Runs task_execution course success
course_ends =
    sequence_on (leaf_succeeded _)
      (sequence_on recovered_ends
        (sequence_on (leaf_succeeded _)
          (sequence_on arrived_ends
            (sequence_on (leaf_succeeded _) (sequence_on (leaf_succeeded _) sequence_over refl)
              refl)
            refl)
          refl)
        refl)
      refl

leg_outcome_example :
    HasArrived 3 pick recovered success
    ⊎ (HasRecovered 3 pick recovered success ⊎ HasGivenUp 3 pick recovered success)
leg_outcome_example = leg_outcome Runs Runs-IsEngine 3 pick recovered success recovered_ends

task_course_example :
    (to_pick to_drop : History) × IsDone pick to_pick
    × IsDone drop to_drop
    × (course
        ≡ ((request, success) ∷ to_pick)
          ++ (((execute pick, success) ∷ to_drop)
              ++ ((execute drop, success) ∷ (report, success) ∷ [])))
task_course_example = task_course Runs Runs-IsEngine course course_ends

failed_once :
    (n : ℕ) (h : History)
    → Runs (nav_retry n pick) h failure
    → Runs
        (nav_retry (suc n) pick)
        ((nav (to_leg pick), failure) ∷ (recovery pick, failure) ∷ h)
        failure
failed_once n h e =
    attempt_failed
      (fallback_on (leaf_failed _) (fallback_on (leaf_failed _) fallback_over refl) refl) e refl

abbrev pub given_up : History
given_up = (request, success) ∷ tries pick 3

pub given_up_ends : Runs task_execution given_up failure
given_up_ends =
    sequence_on (leaf_succeeded _)
      (sequence_stop (failed_once 2 _ (failed_once 1 _ (failed_once 0 _ no_attempt)))) refl
