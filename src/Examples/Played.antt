-- ===== src/Examples/Played.antt =====
-- Runs of one robot by evaluation: src/fms_robot_agent.
pub mod Served
pub mod Cases
use warehouse_fleet_manageme.Common.{
  ℕ, ◌≡◌, refl, true, false, Option, none, some, List, [], ◌∷◌, ◌++◌,
}
use warehouse_fleet_manageme.Float.Fixed.{Fixed, fixed_double}
use warehouse_fleet_manageme.Robot.Nodes.Navigate.{succeeded}
use warehouse_fleet_manageme.Robot.System.{
  Leg, pick, drop, Leaf, request, report, nav, recovery, execute, to_leg, Inputs, Outside,
  goal_response, nav_result, spin_result, backup_result, call, start_leaf, tick_leaf, Run, after,
  outside, start, tick, Reach, here, next,
}

-- What happens next: a leaf is started, the one that runs is ticked, or a call comes in.
pub data Move : Type 0 where
  go : Leaf → Inputs → Move
  again : Inputs → Move
  hear : Outside Fixed → Move

pub record Played (r : Run Fixed) : Type 0 where
  pub last : Run Fixed
  pub reach : Reach r last

abbrev play_at :
    {r : Run Fixed} (p : Played r) (active : Option Leaf) → p.last.active ≡ active → Move → Played r
play_at p none e (go l i) = record {
  last = after l (start_leaf l i p.last.system);
  reach = next p.reach (start l i e refl);
}
play_at p (some l) e (again i) = record {
  last = after l (tick_leaf l i p.last.system);
  reach = next p.reach (tick l i e refl);
}
play_at p o e (hear c) = record {
  last = record (p.last) { system = call c p.last.system };
  reach = next p.reach (outside c refl);
}
play_at p o e m = p

abbrev play : {r : Run Fixed} → Played r → List Move → Played r
play p [] = p
play p (m ∷ ms) = play (play_at p p.last.active refl m) ms

abbrev pub played : (r : Run Fixed) → List Move → Played r
played r ms = play (record { last = r; reach = here }) ms

abbrev pub reachable : Inputs
reachable = record {
  now = 500;
  later = 501;
  clock = record { start = 1; pick = 2; drop = 3 };
  nav_ready = true;
  servers = record { spin_ready = true; backup_ready = true };
}

abbrev much_later : Inputs
much_later = record reachable { now = 900_000_000_000 }

abbrev unreachable : Inputs
unreachable = record reachable { nav_ready = false }

-- A drive under this number that arrives, and a pick or drop.
abbrev drives : Leg → ℕ → List Move
drives l goal =
    go (nav (to_leg l)) reachable
    ∷ hear (goal_response (to_leg l) goal (some goal))
    ∷ hear (nav_result (to_leg l) goal succeeded)
    ∷ again reachable
    ∷ go (execute l) reachable
    ∷ again much_later
    ∷ []

-- A drive that cannot start, a recovery under these two numbers, and a pick or drop.
abbrev recovers : Leg → ℕ → ℕ → List Move
recovers l spin back =
    go (nav (to_leg l)) unreachable
    ∷ go (recovery l) reachable
    ∷ hear (spin_result l spin succeeded)
    ∷ again reachable
    ∷ hear (backup_result l back succeeded)
    ∷ again reachable
    ∷ again reachable
    ∷ go (execute l) reachable
    ∷ again much_later
    ∷ []

abbrev pub all_arrive : List Move
all_arrive = (go request reachable ∷ drives pick 0) ++ (drives drop 1 ++ (go report reachable ∷ []))

abbrev pub drop_recovers : List Move
drop_recovers =
    (go request reachable ∷ drives pick 0) ++ (recovers drop 1 2 ++ (go report reachable ∷ []))

abbrev pub sets_out : List Move
sets_out = go (nav (to_leg pick)) reachable ∷ []

-- A drive that cannot start, and a recovery whose servers are not there.
abbrev deaf : Inputs
deaf = record unreachable { servers = record { spin_ready = false; backup_ready = false } }

abbrev strands : List Move
strands =
    go (nav (to_leg pick)) deaf
    ∷ go (recovery pick) deaf
    ∷ again deaf
    ∷ again deaf
    ∷ again deaf
    ∷ again deaf
    ∷ []

abbrev pub gives_up : List Move
gives_up = (go request reachable ∷ strands) ++ (strands ++ strands)
