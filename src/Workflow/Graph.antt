-- ===== src/Workflow/Graph.antt =====
-- The two searches of `activation_requirements` (asoud_erp/services/workflow_contract.py): the
-- stages reached from the start by a stack, and the stages that can finish by a growing set.
pub mod Walk
pub mod Grow
use frappe_erp_next.Prelude.{
  ℕ, zero, suc, ◌+◌, String, Bool, true, false, not, ◌&&◌, ◌||◌, Option, none, some, List, [], ◌∷◌,
  ◌++◌, map, ◌==◌, if◌then◌else◌, contains, is_empty, Has, In, refl, ◌≡◌, length, all, any, select,
}
use frappe_erp_next.Workflow.Design.{Transition}

-- The stages that the edges out of `node` lead to, in order: `outgoing[node]` of the source.
abbrev pub targets : List Transition → String → List String
targets edges node = map (λ e. e.to_stage) (select (λ e. e.from_stage == node) edges)

-- `pending.extend(xs)`: a stack's top is the head of the list, so each element goes on top in turn.
abbrev pub extend : List String → List String → List String
extend [] pending = pending
extend (x ∷ xs) pending = extend xs (x ∷ pending)

-- `while pending: node = pending.pop(); ...`. The fuel bounds the rounds.
unfoldable pub walk : List Transition → ℕ → List String → List String → Option (List String)
walk edges zero reached pending = none
walk edges (suc fuel) reached [] = some reached
walk edges (suc fuel) reached (node ∷ pending) =
    let again = walk edges fuel reached pending in
    let onward = walk edges fuel (node ∷ reached) (extend (targets edges node) pending) in
    if contains reached node then again else onward

-- The sources of the edges into the set that the set lacks: `expanded` less `can_finish`.
abbrev pub fresh : List Transition → List String → List String
fresh edges finish =
    map (λ e. e.from_stage)
      (select (λ e. contains finish e.to_stage && not (contains finish e.from_stage)) edges)

-- `while True: expanded = ...; if expanded == can_finish: break`
unfoldable pub grow : List Transition → ℕ → List String → Option (List String)
grow edges zero finish = none
grow edges (suc fuel) finish =
    let more = grow edges fuel (fresh edges finish ++ finish) in
    if is_empty (fresh edges finish) then some finish else more

-- `b` is reached from `a` along edges.
pub data Leads (edges : List Transition) (a : String) : String → Type 0 where
  stay : Leads edges a a
  step :
      {b c : String} (e : Transition)
      → In e edges
      → e.from_stage ≡ b
      → e.to_stage ≡ c
      → Leads edges a b
      → Leads edges a c

pub Leads-cons :
    (edges : List Transition) (e : Transition) {a b c : String}
    → In e edges
    → e.from_stage ≡ a
    → e.to_stage ≡ b
    → Leads edges b c
    → Leads edges a c
Leads-cons edges e m p q stay = step e m p q stay
Leads-cons edges e m p q (step d n r s w) = step d n r s (Leads-cons edges e m p q w)
