-- ===== src/Fleet/System/Growing.antt =====
-- What the fleet server published stays published: fleet_server_node.cpp of src/fms_fleet_server.
use mathlib.Core.List.{Memᴰ}
use warehouse_fleet_manageme.Common.{ℕ, String, ◌≡◌, refl, sym, subst, inl, inr}
use warehouse_fleet_manageme.Float.{Double}
use warehouse_fleet_manageme.Messages.{TaskAssignment}
use warehouse_fleet_manageme.Fleet.Store.{Mongo, Fields}
use warehouse_fleet_manageme.Fleet.Broker.{Amqp}
use warehouse_fleet_manageme.Fleet.Node.{FleetServer}
use warehouse_fleet_manageme.Fleet.Node.View.{robot_status_cb_lem}
use warehouse_fleet_manageme.Fleet.Node.Consume.{JsonLibrary}
use warehouse_fleet_manageme.Fleet.System.{
  AtWork, Event, choose, dispatch, status, completion, exchange, stop,
}
use warehouse_fleet_manageme.Fleet.System.Serving.{dispatched, completed}

module _ {D DB Q : Type 0} where
  -- The topics are the same, and what was published is still there.
  pub record Grows (s s' : FleetServer D DB Q) : Type 0 where
    pub same_topics : s'.assignment_topics ≡ s.assignment_topics
    pub still_published : (e : ℕ × TaskAssignment D) → Memᴰ e s.published → Memᴰ e s'.published

  unchanged-Grows :
      (s s' : FleetServer D DB Q)
      → s'.assignment_topics ≡ s.assignment_topics
      → s'.published ≡ s.published
      → Grows s s'
  unchanged-Grows s s' e f = record {
    same_topics = e;
    still_published = λ p m. subst (Memᴰ p) (sym f) m;
  }

module _ {D DB Q J : Type 0} ⦃d : Double D⦄ (library : JsonLibrary D J) (mongo : Mongo D DB)
    (amqp : Amqp Q) (dump : Fields D → String) where
  pub Event-Grows : (s t : AtWork D DB Q) → Event library mongo amqp dump s t → Grows s.node t.node
  Event-Grows s _ (choose _ t id best r e) = unchanged-Grows s.node s.node refl refl
  Event-Grows _ _ (dispatch node now front back t) = elim (dispatched mongo now t node) [
    | inl e ↦ rw e (unchanged-Grows node node refl refl)
    | inr (i, db, f, e) ↦ rw e (record { same_topics = refl; still_published = λ p m. Memᴰ.tail m })
  ]
  Event-Grows s _ (status _ msg) =
      let (db, e) = robot_status_cb_lem mongo msg s.node in
      rw e (unchanged-Grows s.node _ refl refl)
  Event-Grows s _ (completion _ msg) =
      let (db, conn, e) = completed mongo amqp dump msg s.node in
      rw e (unchanged-Grows s.node _ refl refl)
  Event-Grows s _ (exchange _ conn) = unchanged-Grows s.node _ refl refl
  Event-Grows s _ (stop _) = unchanged-Grows s.node _ refl refl
