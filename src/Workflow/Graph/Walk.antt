-- ===== src/Workflow/Graph/Walk.antt =====
-- The stack search ends within its fuel, and finds exactly what the start leads to.
use frappe_erp_next.Prelude.{
  ℕ, zero, suc, ◌+◌, ◌<◌, ◌≤◌, ◌≡◌, refl, subst, sym, ◌↔◌, ◌⊎◌, inl, inr, String, true, false, not,
  ◌||◌, Option, some, List, [], ◌∷◌, ◌==◌, eq_iff, eq_refl, arith, contains, Has, In, length,
  select, Bool-cases, map_witness, contains-map, select-In, In-select,
}
use frappe_erp_next.Workflow.Design.{Transition}
use frappe_erp_next.Workflow.Graph.{targets, extend, walk, Leads, stay, step}

pub contains-extend :
    (xs ys : List String) (a : String)
    → contains (extend xs ys) a ≡ (contains xs a || contains ys a)
contains-extend [] ys a = refl
contains-extend (x ∷ xs) ys a = ground (arith, contains-extend xs (x ∷ ys) a)

length-extend : (xs ys : List String) → length (extend xs ys) ≡ length xs + length ys
length-extend [] ys = omega arith
length-extend (x ∷ xs) ys = omega (arith, length-extend xs (x ∷ ys))

-- The edges that the search has not followed yet.
abbrev open_edges : List Transition → List String → ℕ
open_edges edges reached = length (select (λ e. not (contains reached e.from_stage)) edges)

open_edges-cons :
    (edges : List Transition) (reached : List String) (node : String)
    → contains reached node ≡ false
    → open_edges edges (node ∷ reached) + length (targets edges node) ≡ open_edges edges reached
open_edges-cons [] reached node h = omega arith
open_edges-cons (e ∷ es) reached node h =
    ground
      (arith, open_edges-cons es reached node h, eq_iff e.from_stage node, eq_iff node e.from_stage)

pub open_edges-le :
    (edges : List Transition) (reached : List String) → open_edges edges reached ≤ length edges
open_edges-le [] reached = omega arith
open_edges-le (e ∷ es) reached = ground (arith, open_edges-le es reached)

-- With fuel above the stack and the open edges the loop ends.
pub walk_total :
    (edges : List Transition) (fuel : ℕ) (reached pending : List String)
    → length pending + open_edges edges reached < fuel
    → (r : List String) × (walk edges fuel reached pending ≡ some r)
unfolding walk
walk_total edges zero reached pending h = absurd (omega arith)
walk_total edges (suc fuel) reached [] h = (reached, refl)
walk_total edges (suc fuel) reached (node ∷ pending) h = elim (Bool-cases (contains reached node)) [
  | inl old ↦ rw old (walk_total edges fuel reached pending (omega arith))
  | inr new ↦ rw new (
      walk_total edges fuel (node ∷ reached) (extend (targets edges node) pending) (
        omega (
          arith,
          open_edges-cons edges reached node new,
          length-extend (targets edges node) pending,
        )))
]

Has-targets :
    (edges : List Transition) (e : Transition)
    → In e edges
    → Has (targets edges e.from_stage) e.to_stage
Has-targets edges e m =
    contains-map (λ d. d.to_stage) (select (λ d. d.from_stage == e.from_stage) edges)
      (In-select (λ d. d.from_stage == e.from_stage) edges m (eq_refl e.from_stage))

targets_witness :
    (edges : List Transition) (a b : String)
    → Has (targets edges a) b
    → (e : Transition) × In e edges × (e.from_stage ≡ a) × (e.to_stage ≡ b)
targets_witness edges a b h =
    let (e, m, q) = map_witness (λ d. d.to_stage) (select (λ d. d.from_stage == a) edges) b h in
    let (n, p) = select-In (λ d. d.from_stage == a) edges m in
    (e, n, (eq_iff e.from_stage a).0 p, q)

-- Every edge out of a reached stage leads to one that is reached or waiting.
abbrev IsClosed : List Transition → List String → List String → Type 0
IsClosed edges reached pending =
    (e : Transition)
    → In e edges
    → Has reached e.from_stage
    → (contains reached e.to_stage || contains pending e.to_stage) ≡ true

IsClosed-again :
    (edges : List Transition) (reached pending : List String) (node : String)
    → Has reached node
    → IsClosed edges reached (node ∷ pending)
    → IsClosed edges reached pending
IsClosed-again edges reached pending node old c e m h =
    ground (arith, c e m h, eq_iff node e.to_stage, moved)
  where
    moved : node ≡ e.to_stage → Has reached e.to_stage
    moved q = rw q at old

followed :
    (edges : List Transition) (node : String) (e : Transition)
    → In e edges
    → (node == e.from_stage) ≡ true
    → Has (targets edges node) e.to_stage
followed edges node e m q = rw ((eq_iff node e.from_stage).0 q) (Has-targets edges e m)

IsClosed-onward :
    (edges : List Transition) (reached pending : List String) (node : String)
    → IsClosed edges reached (node ∷ pending)
    → IsClosed edges (node ∷ reached) (extend (targets edges node) pending)
IsClosed-onward edges reached pending node c e m h = elim (Bool-cases (node == e.from_stage)) [
  | inl now ↦
      ground (
        arith,
        followed edges node e m now,
        contains-extend (targets edges node) pending e.to_stage,
      )
  | inr before ↦
      ground (arith, c e m (ground arith), contains-extend (targets edges node) pending e.to_stage)
]

-- What the search keeps, whatever it starts from: nothing reached or waiting is lost, the result is
-- closed under the edges, and a property that the edges keep holds of all that is found.
pub record Walked (edges : List Transition) (reached pending r : List String) : Type 1 where
  pub keeps : (x : String) → (contains reached x || contains pending x) ≡ true → Has r x
  pub closed : (e : Transition) → In e edges → Has r e.from_stage → Has r e.to_stage
  pub sound :
      (P : String → Type 0)
      → ((x : String) → (contains reached x || contains pending x) ≡ true → P x)
      → ((e : Transition) → In e edges → P e.from_stage → P e.to_stage)
      → (x : String) → Has r x
      → P x

walk_done :
    (edges : List Transition) (reached : List String)
    → IsClosed edges reached []
    → Walked edges reached [] reached
walk_done edges reached c = record {
  keeps = λ x h. ground arith;
  closed = λ e m h. ground (arith, c e m h);
  sound = λ P holds along x h. holds x (ground arith);
}

walk_again :
    (edges : List Transition) (reached pending : List String) (node : String) {r : List String}
    → Has reached node
    → Walked edges reached pending r
    → Walked edges reached (node ∷ pending) r
walk_again edges reached pending node {r} old w = record {
  keeps = λ x h. elim (Bool-cases (node == x)) [
    | inl e ↦ w.keeps x (rw (← (eq_iff node x).0 e) (ground arith))
    | inr n ↦ w.keeps x (ground arith)
  ];
  closed = w.closed;
  sound = λ P holds along. w.sound P (λ x h. holds x (ground arith)) along;
}

walk_onward :
    (edges : List Transition) (reached pending : List String) (node : String) {r : List String}
    → Walked edges (node ∷ reached) (extend (targets edges node) pending) r
    → Walked edges reached (node ∷ pending) r
walk_onward edges reached pending node {r} w = record {
  keeps = λ x h. w.keeps x (ground (arith, contains-extend (targets edges node) pending x));
  closed = w.closed;
  sound = λ P holds along.
      w.sound P
        (λ x h. from_earlier P holds along x (Bool-cases (contains (targets edges node) x)) h)
        along;
}
  where
    from_earlier :
        (P : String → Type 0)
        → ((x : String) → (contains reached x || contains (node ∷ pending) x) ≡ true → P x)
        → ((e : Transition) → In e edges → P e.from_stage → P e.to_stage)
        → (x : String)
        → (contains (targets edges node) x ≡ true) ⊎ (contains (targets edges node) x ≡ false)
        → (contains (node ∷ reached) x || contains (extend (targets edges node) pending) x) ≡ true
        → P x
    from_earlier P holds along x (inl t) h =
        let (e, m, p, q) = targets_witness edges node x t in
        rw (← q) (along e m (rw p (holds node (ground (arith, eq_refl node)))))
    from_earlier P holds along x (inr n) h =
        holds x (ground (arith, contains-extend (targets edges node) pending x))

-- The loop's invariants at its end, for any fuel that it ends within.
pub walk-Walked :
    (edges : List Transition) (fuel : ℕ) (reached pending : List String) {r : List String}
    → IsClosed edges reached pending
    → walk edges fuel reached pending ≡ some r
    → Walked edges reached pending r
unfolding walk
walk-Walked edges zero reached pending c h = cc
walk-Walked edges (suc fuel) reached [] {r} c h =
    let e : reached ≡ r = cc in
    subst (λ (z : List String). Walked edges reached [] z) e (walk_done edges reached c)
walk-Walked edges (suc fuel) reached (node ∷ pending) c h =
    elim (Bool-cases (contains reached node)) [
      | inl old ↦ walk_again edges reached pending node old (
          walk-Walked edges fuel reached pending (IsClosed-again edges reached pending node old c)
            (rw old at h))
      | inr new ↦ walk_onward edges reached pending node (
          walk-Walked edges fuel (node ∷ reached) (extend (targets edges node) pending)
            (IsClosed-onward edges reached pending node c) (rw new at h))
    ]

led :
    (edges : List Transition) (start : String) {r : List String}
    → Walked edges [] (start ∷ []) r
    → (x : String) → Leads edges start x
    → Has r x
led edges start w x stay = w.keeps x (ground (arith, eq_refl x))
led edges start {r} w x (step {b = b} e m p q l) =
    subst (λ (z : String). Has r z) q
      (w.closed e m (subst (λ (z : String). Has r z) (sym p) (led edges start w b l)))

-- The search of `activation_requirements`, from the start stage alone.
unfoldable pub reached_from : List Transition → String → Option (List String)
unfolding walk
reached_from edges start = walk edges (suc (suc (length edges))) [] (start ∷ [])

-- The search from the start stage ends within its bound, and what it returns is exactly the stages
-- that edges lead to.
pub reached_from_lem :
    (edges : List Transition) (start : String)
    → (r : List String) × (reached_from edges start ≡ some r)
      × ((x : String) → Has r x ↔ Leads edges start x)
unfolding reached_from
reached_from_lem edges start =
    let (r, e) =
      walk_total edges (suc (suc (length edges))) [] (start ∷ [])
        (omega (arith, open_edges-le edges [])) in
    let w = walk-Walked edges (suc (suc (length edges))) [] (start ∷ []) (λ d m h. cc) e in
    (
      r,
      e,
      λ x. (
        w.sound (Leads edges start) (λ y h. from_start y h) (λ d m l. step d m refl refl l) x,
        led edges start w x,
      ),
    )
  where
    from_start :
        (y : String) → (contains [] y || contains (start ∷ []) y) ≡ true → Leads edges start y
    from_start y h = rw (← (eq_iff start y).0 (ground arith)) stay
