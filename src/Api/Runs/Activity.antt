-- ===== src/Api/Runs/Activity.antt =====
-- backend/api/runs.py: `_make_on_sub_node_activity`, the reference counts of active sub-nodes.
use agent_graph_studio.Prelude.{
  ltb, if◌then◌else◌, ◌==◌, ==_iff, string_eq, ℕ, ◌+◌, ◌-◌, String, ◌≡◌, Bool, true, false, Option,
  none, some, List, [], ◌∷◌, arith,
}
use agent_graph_studio.Api.Runs.{RunRecord}
use agent_graph_studio.Prelude.Dict.{keys, Dict, get, put, pop, get-put, get-pop}

abbrev count_of : Option ℕ → ℕ
count_of none = 0
count_of (some n) = n

-- `counts.get(id, 0) - 1` is not above 0 where the count is 0 or 1
next_counts : Dict String ℕ → String → ℕ → Dict String ℕ
next_counts counts id count = if ltb 0 count then put counts id count else pop counts id

-- `on_sub_node_activity`: a call with `active` true or false
pub on_activity : Dict String ℕ → String → Bool → Dict String ℕ
unfolding next_counts
on_activity counts id true = next_counts counts id (count_of (get counts id) + 1)
on_activity counts id false = next_counts counts id (count_of (get counts id) - 1)

-- The counters after a call, and the record that shows them.
pub on_sub_node_activity : RunRecord → Dict String ℕ → String → Bool → Dict String ℕ × RunRecord
unfolding on_activity
on_sub_node_activity r counts id active =
    let counts' = on_activity counts id active in
    (counts', record r { active_sub_node_ids = keys counts' })

pub on_activities : Dict String ℕ → List (String × Bool) → Dict String ℕ
unfolding on_activity
on_activities counts [] = counts
on_activities counts ((id, active) ∷ calls) = on_activities (on_activity counts id active) calls

-- How many calls are using `id`: each start adds one, and each end takes one off, not below zero.
abbrev pub in_use : ℕ → String → List (String × Bool) → ℕ
in_use n id [] = n
in_use n id ((j, active) ∷ calls) =
    in_use (if j == id then (if active then n + 1 else n - 1) else n) id calls

-- The counter of `id`, as the table shows it.
abbrev Shows : Dict String ℕ → String → ℕ → Type 0
Shows counts id n = get counts id ≡ (if ltb 0 n then some n else none)

on_activity-Shows :
    (counts : Dict String ℕ) (j : String) (active : Bool) (id : String) (n : ℕ)
    → Shows counts id n
    → Shows
        (on_activity counts j active)
        id
        (if j == id then (if active then n + 1 else n - 1) else n)
unfolding on_activity next_counts
on_activity-Shows counts j true id n h =
    ground
      (arith, ==_iff j id, get-put counts j id (count_of (get counts j) + 1), get-pop counts j id)
on_activity-Shows counts j false id n h =
    ground
      (arith, ==_iff j id, get-put counts j id (count_of (get counts j) - 1), get-pop counts j id)

-- From counters that show `n` uses of a sub-node, after any calls, in the order in which the lock let
-- them in, the sub-node is shown as active exactly while some call is using it, and its counter is the
-- number of those.
pub on_activities-in_use :
    (calls : List (String × Bool)) (counts : Dict String ℕ) (id : String) (n : ℕ)
    → get counts id ≡ (if ltb 0 n then some n else none)
    → get (on_activities counts calls) id
      ≡ (if ltb 0 (in_use n id calls) then some (in_use n id calls) else none)
unfolding on_activities
on_activities-in_use [] counts id n h = h
on_activities-in_use ((j, active) ∷ calls) counts id n h =
    on_activities-in_use calls (on_activity counts j active) id _
      (on_activity-Shows counts j active id n h)
