-- ===== src/Fleet/Node/Summary.antt =====
-- The summary that the fleet server logs every two seconds: `print_summary_cb` of
-- fleet_server_node.cpp, src/fms_fleet_server. The texts are ASCII, so a width counts characters.
use Prim.Native.String.{count, ◌++◌}
use text.Mathlib.TextLemmas.{length-append, append_assoc}
use warehouse_fleet_manageme.Common.{
  ℕ, zero, suc, ◌-◌, ◌≤◌, ◌≡◌, refl, sym, ap, ◌∙◌, String, ◌==◌, ◌==ₛ◌, Bool, true, false, [], ◌∷◌,
  List, arith, if◌then◌else◌,
}
use warehouse_fleet_manageme.Messages.{RobotStatus}
use warehouse_fleet_manageme.Fleet.Names.{robot_state_to_string}
use warehouse_fleet_manageme.Fleet.Node.{FleetServer}

spaces : ℕ → String
spaces zero = ""
spaces (suc n) = " " ++ spaces n

-- `std::left << std::setw(width)`: a longer text is not cut.
unfoldable pub cell : ℕ → String → String
unfolding spaces
cell width text = text ++ spaces (width - count text)

unfoldable pub task_text : String → String
task_text id = if id ==ₛ "" then "-" else id

unfoldable pub heading : String
unfolding cell
heading = cell 10 "robot" ++ (cell 12 "state" ++ (cell 8 "SOC%" ++ (cell 16 "task" ++ "\n")))

-- `fixed` is what `std::fixed << std::setprecision(1)` writes for a number.
module _ {D : Type 0} (fixed : D → String) where
  unfoldable pub row : String → RobotStatus D → String
  unfolding cell task_text
  row id status =
      cell 10 id
      ++ (cell 12 (robot_state_to_string status.state)
          ++ (cell 8 (fixed status.battery_soc)
              ++ (cell 16 (task_text status.current_task_id) ++ "\n")))

  unfoldable pub rows : List (String × RobotStatus D) → String
  unfolding row
  rows [] = ""
  rows ((id, status) ∷ rest) = row id status ++ rows rest

  -- The text that goes to the log.
  unfoldable pub print_summary_cb : {DB Q : Type 0} → FleetServer D DB Q → String
  unfolding rows heading
  print_summary_cb s = elim s.latest_status [
    | [] ↦ "fleet summary: no robot status received yet"
    | r ∷ rest ↦ "fleet summary:\n" ++ (heading ++ rows (r ∷ rest))
  ]

count-spaces : (n : ℕ) → count (spaces n) ≡ n
unfolding spaces
count-spaces zero = refl
count-spaces (suc n) = omega (arith, length-append " " (spaces n), count-spaces n)

count-cell : (width : ℕ) (text : String) → count text ≤ width → count (cell width text) ≡ width
unfolding cell
count-cell width text h =
    omega
      (arith, length-append text (spaces (width - count text)), count-spaces (width - count text))

count-if : (b : Bool) (s t : String) → count s ≤ 12 → count t ≤ 12 → count (if b then s else t) ≤ 12
count-if true s t h k = h
count-if false s t h k = k

count-state : (state : ℕ) → count (robot_state_to_string state) ≤ 12
unfolding robot_state_to_string
count-state state = count-if (state == 0) _ _ (omega arith) (
    count-if (state == 1) _ _ (omega arith) (
      count-if (state == 2) _ _ (omega arith) (
        count-if (state == 3) _ _ (omega arith) (
          count-if (state == 4) _ _ (omega arith) (
            count-if (state == 5) _ _ (omega arith)
              (count-if (state == 6) _ _ (omega arith) (omega arith)))))))

-- Where an id has at most ten characters and the text of a charge at most eight, the task of a row
-- stands in its 31st column, as in the heading.
row_columns :
    {D : Type 0} (fixed : D → String) (id : String) (status : RobotStatus D)
    → count id ≤ 10
    → count (fixed status.battery_soc) ≤ 8
    → (front : String) × (count front ≡ 30)
      × (row fixed id status ≡ front ++ (cell 16 (task_text status.current_task_id) ++ "\n"))
unfolding row
row_columns fixed id status h k =
    let a = cell 10 id in
    let b = cell 12 (robot_state_to_string status.state) in
    let c = cell 8 (fixed status.battery_soc) in
    let rest = cell 16 (task_text status.current_task_id) ++ "\n" in
    (
      a ++ (b ++ c),
      omega (
        arith,
        length-append a (b ++ c),
        length-append b c,
        count-cell 10 id h,
        count-cell 12 (robot_state_to_string status.state) (count-state status.state),
        count-cell 8 (fixed status.battery_soc) k,
      ),
      sym (append_assoc a (b ++ c) rest ∙ ap (λ x. a ++ x) (append_assoc b c rest)),
    )

heading_columns : count heading ≡ 47
unfolding heading
heading_columns = refl
