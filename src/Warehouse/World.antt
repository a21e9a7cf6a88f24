-- ===== src/Warehouse/World.antt =====
-- The fleet server and one robot of the fleet at work together: src/fms_fleet_server and
-- src/fms_robot_agent. The server takes any of its events, among them what the other robots send. A
-- task reaches the robot by the topic to which its node subscribes, at any time after it was
-- published there; the order of the messages is left open, and one may come again.
use Prim.Native.String.{◌++◌ as ◌++ₛ◌}
use text.Mathlib.TextLemmas.{append_cancel_left, append_cancel_right}
use mathlib.Core.List.{Memᴰ}
use mathlib.Core.List.Memᴰ.{head, tail}
use warehouse_fleet_manageme.Common.{
  ℕ, String, ◌≡◌, refl, sym, subst, ap, ◌∙◌, none, some, List, [], ◌∷◌, All, arith,
}
use warehouse_fleet_manageme.Float.{Double}
use warehouse_fleet_manageme.Messages.{TaskAssignment}
use warehouse_fleet_manageme.Fleet.Effect.{Result, returned}
use warehouse_fleet_manageme.Fleet.Store.{Mongo, Fields}
use warehouse_fleet_manageme.Fleet.Broker.{Amqp}
use warehouse_fleet_manageme.Fleet.Node.{FleetServer}
use warehouse_fleet_manageme.Fleet.Node.View.{get_elem?}
use warehouse_fleet_manageme.Fleet.Node.Consume.{JsonLibrary}
use warehouse_fleet_manageme.Fleet.Setup.{ServerParameters, Runtime, FleetProcess, construct}
use warehouse_fleet_manageme.Fleet.System.{AtWork, Event, Events}
use warehouse_fleet_manageme.Fleet.System
use warehouse_fleet_manageme.Fleet.System.Serving.{IsDelivered}
use warehouse_fleet_manageme.Fleet.System.Started.{idle, published-IsDelivered}
use warehouse_fleet_manageme.Fleet.System.Entries.{Events-trans}
use warehouse_fleet_manageme.Fleet.System.Growing.{Grows, Event-Grows}
use warehouse_fleet_manageme.Robot.Agent.{Agent}
use warehouse_fleet_manageme.Robot.System.{Run, Step, assignment, call, outside}
use warehouse_fleet_manageme.Robot.System.Custody.{Keeps, brought, Keeps-map, step-Keeps}
use warehouse_fleet_manageme.Robot.Tree.Served.{slots}

-- The topic to which `on_configure` of a robot subscribes.
abbrev pub task_topic : String → String
task_topic name = "/" ++ₛ (name ++ₛ "/task_assignment")

same_topic : (a b : String) → task_topic a ≡ task_topic b → a ≡ b
same_topic a b e =
    append_cancel_right a b "/task_assignment"
      (append_cancel_left "/" (a ++ₛ "/task_assignment") (b ++ₛ "/task_assignment") e)

pub record World (D DB Q : Type 0) : Type 0 where
  pub server : AtWork D DB Q
  pub robot : Run D

module _ {D DB Q : Type 0} where
  -- The server published the task on the topic of the robot of this name.
  abbrev pub IsSent : FleetServer D DB Q → String → TaskAssignment D → Type 0
  IsSent s name t =
      (i : ℕ) × Memᴰ (i, t) s.published × (get_elem? s.assignment_topics i ≡ some (task_topic name))

  Grows-IsSent :
      (s s' : FleetServer D DB Q) (name : String) (t : TaskAssignment D)
      → Grows s s'
      → IsSent s name t
      → IsSent s' name t
  Grows-IsSent s s' name t g (i, m, e) =
      (i, g.still_published (i, t) m, ap (λ ts. get_elem? ts i) g.same_topics ∙ e)

module _ {D DB Q J : Type 0} ⦃d : Double D⦄ (library : JsonLibrary D J) (mongo : Mongo D DB)
    (amqp : Amqp Q) (dump : Fields D → String) (name : String) where
  pub data Turn (w : World D DB Q) : World D DB Q → Type 0 where
    serve :
        (s : AtWork D DB Q)
        → Event library mongo amqp dump w.server s
        → Turn w (record w { server = s })
    -- Any step of the robot but an assignment.
    work : (r : Run D) (st : Step w.robot r) → brought st ≡ [] → Turn w (record w { robot = r })
    deliver :
        (t : TaskAssignment D)
        → IsSent w.server.node name t
        → Turn w
            (record w { robot = record (w.robot) { system = call (assignment t) w.robot.system } })

  -- Any number of turns, the last one outermost.
  pub data Turns (w : World D DB Q) : World D DB Q → Type 0 where
    here : Turns w w
    next : {u v : World D DB Q} → Turns w u → Turn u v → Turns w v

  -- Everything that the robot holds or reported was sent to it.
  abbrev IsServed : World D DB Q → Type 0
  IsServed w = Keeps (IsSent w.server.node name) name (slots w.robot.system.agent)

  served_events :
      {w v : World D DB Q} → Turns w v → Events library mongo amqp dump w.server v.server
  served_events here = System.here
  served_events (next h (serve s e)) = System.next (served_events h) e
  served_events (next h (work r st q)) = served_events h
  served_events (next h (deliver t m)) = served_events h

  Turn-IsServed : (w v : World D DB Q) → Turn w v → IsServed w → IsServed v
  Turn-IsServed w _ (serve s e) h =
      Keeps-map (IsSent w.server.node name) (IsSent s.node name) name
        (λ t.
          Grows-IsSent w.server.node s.node name t
            (Event-Grows library mongo amqp dump w.server s e))
        (slots w.robot.system.agent) h
  Turn-IsServed w _ (work r st q) h =
      step-Keeps (IsSent w.server.node name) name st
        (subst (All (IsSent w.server.node name)) (sym q) tt) h
  Turn-IsServed w _ (deliver t m) h =
      step-Keeps (IsSent w.server.node name) name {r = w.robot} (outside (assignment t) refl)
        (m, tt) h

  Turns-IsServed : (w v : World D DB Q) → Turns w v → IsServed w → IsServed v
  Turns-IsServed w _ here h = h
  Turns-IsServed w v (next {u = u} ts t) h = Turn-IsServed u v t (Turns-IsServed w u ts h)

module _ {D DB Q : Type 0} where
  -- The task names the robot, and the server published it.
  abbrev pub IsOwn : FleetServer D DB Q → String → TaskAssignment D → Type 0
  IsOwn s name t = (t.robot_id ≡ name) × ((i : ℕ) × Memᴰ (i, t) s.published)

  member-IsDelivered :
      (s : FleetServer D DB Q) (ps : List (ℕ × TaskAssignment D)) (i : ℕ) (t : TaskAssignment D)
      → All (IsDelivered s) ps
      → Memᴰ (i, t) ps
      → IsDelivered s (i, t)
  member-IsDelivered s [] i t v m = elim m [ ]
  member-IsDelivered s (p ∷ ps) i t v (head e) = subst (IsDelivered s) (sym e) v.0
  member-IsDelivered s (p ∷ ps) i t v (tail m) = member-IsDelivered s ps i t v.1 m

  -- Only the robot that a task names has its topic.
  IsSent-IsOwn :
      (s : FleetServer D DB Q) (name : String)
      → All (IsDelivered s) s.published
      → (t : TaskAssignment D) → IsSent s name t
      → IsOwn s name t
  IsSent-IsOwn s name v t (i, m, e) =
      let topic = member-IsDelivered s s.published i t v m in
      (same_topic t.robot_id name (cc (topic, e)), (i, m))

module _ {D DB Q J : Type 0} ⦃d : Double D⦄ (library : JsonLibrary D J) (mongo : Mongo D DB)
    (amqp : Amqp Q) (dump : Fields D → String) (p : ServerParameters D) (name : String) where
  -- A robot as it is launched under its name, with no tasks.
  pub record IsLaunched (a : Agent D) : Type 0 where
    pub named : a.robot_name ≡ name
    pub no_current : a.current_task ≡ none
    pub no_interrupted : a.interrupted_task ≡ none
    pub no_pending : a.pending_tasks ≡ []
    pub no_reports : a.completions ≡ []

  launched-Keeps :
      (P : TaskAssignment D → Type 0) (a : Agent D) → IsLaunched a → Keeps P name (slots a)
  launched-Keeps P a h = ground arith

  -- A robot that is launched while the server, from its constructor on, is at work: whatever the
  -- two do and however their messages fall between it, every task that the robot holds names it and
  -- was published by the server, and every completion that it published is about such a task and
  -- names the robot, or it has no ids.
  pub tasks_addressed :
      (runtime : Runtime) (open_db : String → String → Result DB) (conn : Q)
      (f : FleetProcess D DB Q) (w v : World D DB Q)
      → construct runtime open_db amqp conn p ≡ returned f
      → Events library mongo amqp dump (idle f.node) w.server
      → IsLaunched w.robot.system.agent
      → Turns library mongo amqp dump name w v
      → Keeps (IsOwn v.server.node name) name (slots v.robot.system.agent)
  tasks_addressed runtime open_db conn f w v e before h ts =
      let (delivered, _) =
        published-IsDelivered library mongo amqp dump p runtime open_db conn f v.server e (
          Events-trans library mongo amqp dump before
            (served_events library mongo amqp dump name ts)) in
      Keeps-map (IsSent v.server.node name) (IsOwn v.server.node name) name
        (IsSent-IsOwn v.server.node name delivered) (slots v.robot.system.agent)
        (Turns-IsServed library mongo amqp dump name w v ts
          (launched-Keeps (IsSent w.server.node name) w.robot.system.agent h))
