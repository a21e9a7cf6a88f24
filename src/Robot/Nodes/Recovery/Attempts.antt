-- ===== src/Robot/Nodes/Recovery/Attempts.antt =====
-- How long RequestRecovery runs: request_recovery.cpp of src/fms_robot_agent.
use warehouse_fleet_manageme.Common.{
  ℕ, ◌+◌, ◌-◌, ◌*◌, ◌<◌, pos, ◌≡◌, ◌⊎◌, Bool, true, false, Option, none, some, List, [], ◌∷◌, arith,
  length, ◌≢◌,
}
use Prim.Native.Nat.{max}
use warehouse_fleet_manageme.Robot.Agent.{Agent}
use warehouse_fleet_manageme.Robot.Nodes.Navigate.{ResultCode}
use warehouse_fleet_manageme.Robot.Nodes.Status.{NodeStatus, running, success, failure, Shared}
use warehouse_fleet_manageme.Robot.Nodes.Recovery.{
  RecoveryNode, RecoveryPhase, spinning, backing, done, failed, RecovState, Servers,
  spin_result_callback, backup_result_callback, on_start, on_running,
}

-- What the action servers say between two ticks.
pub record Round : Type 0 where
  pub spin_code : ResultCode
  pub backup_code : ResultCode
  pub servers : Servers

-- The servers answer the goals that the leaf waits for.
abbrev pub answer_spin : ResultCode → Option (Shared RecovState) → RecoveryNode → RecoveryNode
answer_spin code none n = n
answer_spin code (some s) n = spin_result_callback s.goal code n

abbrev pub answer_backup : ResultCode → Option (Shared RecovState) → RecoveryNode → RecoveryNode
answer_backup code none n = n
answer_backup code (some s) n = backup_result_callback s.goal code n

abbrev pub answer : Round → RecoveryNode → RecoveryNode
answer r n = answer_backup r.backup_code n.backup_state (answer_spin r.spin_code n.spin_state n)

abbrev is_received : Option (Shared RecovState) → Bool
is_received none = false
is_received (some s) = s.state.result_received

abbrev is_held : Option (Shared RecovState) → Bool
is_held none = false
is_held (some s) = true

-- The leaf holds the state of the goal of its phase, and counts no more attempts than `m` allows:
-- it fails at the last of them, and at the first if `m` is 0.
record IsCounted (m : ℕ) (n : RecoveryNode) : Type 0 where
  spin_held : n.phase ≡ spinning → is_held n.spin_state ≡ true
  backup_held : n.phase ≡ backing → is_held n.backup_state ≡ true
  below : (n.phase ≡ spinning) ⊎ (n.phase ≡ backing) → n.attempt < max 1 m
  at_end : n.phase ≡ failed → n.attempt ≡ max 1 m

record IsAnswered (n : RecoveryNode) : Type 0 where
  spin_answered : n.phase ≡ spinning → is_received n.spin_state ≡ true
  backup_answered : n.phase ≡ backing → is_received n.backup_state ≡ true

-- The ticks that an answered leaf needs at most before the one that ends it.
abbrev ticks_left : ℕ → RecoveryPhase → ℕ → ℕ
ticks_left m spinning k = 2 * (m - k) + 2
ticks_left m backing k = 2 * (m - k) + 1
ticks_left m done k = 0
ticks_left m failed k = 0

is_received-answer_spin :
    (code : ResultCode) (n : RecoveryNode)
    → is_held n.spin_state ≡ true
    → is_received (answer_spin code n.spin_state n).spin_state ≡ true
unfolding spin_result_callback
is_received-answer_spin code n h = ground arith

answer-IsCounted : (m : ℕ) (r : Round) (n : RecoveryNode) → IsCounted m n → IsCounted m (answer r n)
unfolding spin_result_callback backup_result_callback
answer-IsCounted m r n c = ground arith

answer-IsAnswered : (m : ℕ) (r : Round) (n : RecoveryNode) → IsCounted m n → IsAnswered (answer r n)
unfolding spin_result_callback backup_result_callback
answer-IsAnswered m r n c = ground arith

ticks_left-answer :
    (m : ℕ) (r : Round) (n : RecoveryNode)
    → ticks_left m (answer r n).phase (answer r n).attempt ≡ ticks_left m n.phase n.attempt
unfolding spin_result_callback backup_result_callback
ticks_left-answer m r n = ground arith

module _ {D : Type 0} where
  -- The ticks of the leaf, each after its round of answers, up to the one that ends it.
  pub settle : ℕ → List Round → RecoveryNode → Agent D → RecoveryNode × Agent D × NodeStatus
  settle m [] n a = (n, a, running)
  settle m (r ∷ rs) n a =
      let (n', a', status) = on_running (some (pos m)) r.servers (answer r n) a in
      let rest = settle m rs n' a' in
      elim status [ running ↦ rest | success ↦ (n', a', success) | failure ↦ (n', a', failure) ]

  tick_progress :
      (m : ℕ) (v : Servers) (n : RecoveryNode) (a : Agent D)
      → IsAnswered n
      → (on_running (some (pos m)) v n a).2 ≡ running
      → let n' = (on_running (some (pos m)) v n a).0 in
        ticks_left m n'.phase n'.attempt < ticks_left m n.phase n.attempt
  unfolding on_running
  tick_progress m v n a h = ground arith

  tick-IsCounted :
      (m : ℕ) (v : Servers) (n : RecoveryNode) (a : Agent D)
      → IsCounted m n
      → IsCounted m (on_running (some (pos m)) v n a).0
  unfolding on_running
  tick-IsCounted m v n a h = ground arith

  start-IsCounted :
      (m : ℕ) (v : Servers) (n : RecoveryNode) (a : Agent D) → IsCounted m (on_start v n a).0
  unfolding on_start
  start-IsCounted m v n a = ground arith

  tick_failure :
      (m : ℕ) (v : Servers) (n : RecoveryNode) (a : Agent D)
      → IsCounted m n
      → (on_running (some (pos m)) v n a).2 ≡ failure
      → (on_running (some (pos m)) v n a).0.attempt ≡ max 1 m
  unfolding on_running
  tick_failure m v n a h = ground arith

  abbrev pub IsSettled : ℕ → RecoveryNode × Agent D × NodeStatus → Type 0
  IsSettled m (n, a, status) = (status ≢ running) × (status ≡ failure → n.attempt ≡ max 1 m)

  settle-IsSettled :
      (m : ℕ) (rs : List Round) (n : RecoveryNode) (a : Agent D)
      → IsCounted m n
      → ticks_left m n.phase n.attempt < length rs
      → IsSettled m (settle m rs n a)
  unfolding settle
  settle-IsSettled m [] n a c h = elim h [ ]
  settle-IsSettled m (r ∷ rs) n a c h = ground (
    arith,
    ticks_left-answer m r n,
    tick_progress m r.servers (answer r n) a (answer-IsAnswered m r n c),
    tick_failure m r.servers (answer r n) a (answer-IsCounted m r n c),
    settle-IsSettled m rs (on_running (some (pos m)) r.servers (answer r n) a).0
        (on_running (some (pos m)) r.servers (answer r n) a).1
        (tick-IsCounted m r.servers (answer r n) a (answer-IsCounted m r n c)),
  )

  -- If the servers answer before each tick, a recovery that allows `m` attempts ends within `2 * m
  -- + 3` ticks, whatever the answers are; and it fails only after `m` attempts failed, or after one
  -- if `m` is 0.
  pub recovery_ends :
      (m : ℕ) (v : Servers) (n : RecoveryNode) (a : Agent D) (rs : List Round)
      → 2 * m + 2 < length rs
      → IsSettled m (settle m rs (on_start v n a).0 (on_start v n a).1)
  recovery_ends m v n a rs h =
      settle-IsSettled m rs _ _ (start-IsCounted m v n a) (unfold on_start in ground arith)
