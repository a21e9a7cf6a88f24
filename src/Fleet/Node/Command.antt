-- ===== src/Fleet/Node/Command.antt =====
-- Commands to a robot: fleet_server_node.cpp of src/fms_fleet_server.
use warehouse_fleet_manageme.Common.{
  String, ◌≡◌, refl, sym, ap, ◌∙◌, not, if◌then◌else◌, ◌==ₛ◌, ==ₛ_iff, Bool, true, false, Option,
  none, some,
}
use warehouse_fleet_manageme.Common.TextMaps.{find}
use warehouse_fleet_manageme.Fleet.Node.{
  FleetServer, Service, CommandResult, respond, ask, send_robot_command,
}

-- The service is ready, and the result is its answer.
abbrev IsAnswer : Service → CommandResult → CommandResult → Type 0
IsAnswer service answer r = (service.ready ≡ true) × (service.response ≡ some answer) × (r ≡ answer)

respond_succeeds :
    (robot_id : String) (ready : Bool) (response : Option CommandResult)
    → (respond robot_id (record { ready = ready; response = response })).success ≡ true
    → (answer : CommandResult) × IsAnswer
        (record { ready = ready; response = response })
        answer
        (respond robot_id (record { ready = ready; response = response }))
respond_succeeds robot_id false response e = cc
respond_succeeds robot_id true none e = cc
respond_succeeds robot_id true (some answer) e = (answer, (refl, refl, refl))

ask_succeeds :
    (robot_id : String) (value : Bool) (service : String → Bool → Service) (found : Option String)
    → (ask robot_id value service found).success ≡ true
    → (client : String) × (answer : CommandResult) × (found ≡ some client)
      × IsAnswer (service client value) answer (ask robot_id value service found)
ask_succeeds robot_id value service none e = cc
ask_succeeds robot_id value service (some client) e =
    let (answer, h) =
      respond_succeeds robot_id (service client value).ready (service client value).response e in
    (client, answer, refl, h)

guarded :
    (b : Bool) (message : String) (r : CommandResult)
    → (if not b then record { success = false; message = message } else r).success ≡ true
    → (b ≡ true) × ((if not b then record { success = false; message = message } else r) ≡ r)
guarded true message r e = (refl, refl)
guarded false message r e = cc

module _ {D DB Q : Type 0} where
  -- A command succeeds only if it is inject_fault, the robot has a service, the service is ready,
  -- and it answers the value within the time with success; and then the result is this answer.
  send_robot_command_succeeds :
      (service : String → Bool → Service) (robot_id command : String) (value : Bool)
      (s : FleetServer D DB Q)
      → (send_robot_command service robot_id command value s).success ≡ true
      → (command ≡ "inject_fault")
        × ((client : String) × (answer : CommandResult) × (find robot_id s.fault_clients
              ≡ some client)
            × ((service client value).ready ≡ true)
            × ((service client value).response ≡ some answer)
            × (send_robot_command service robot_id command value s ≡ answer))
  unfolding send_robot_command
  send_robot_command_succeeds service robot_id command value s e =
      let (known, same) =
        guarded (command ==ₛ "inject_fault") _
          (ask robot_id value service (find robot_id s.fault_clients)) e in
      let (client, answer, found, (ready, response, asked)) =
        ask_succeeds robot_id value service (find robot_id s.fault_clients)
          (ap (λ r. r.success) (sym same) ∙ e) in
      (
        (==ₛ_iff command "inject_fault").0 known,
        (client, answer, found, ready, response, same ∙ asked),
      )
