-- ===== src/Workflow/Activation/Parts.antt =====
-- The lists of `activation_requirements`, part by part: when each of them is empty, and that the
-- search for paths ends.
use frappe_erp_next.Prelude.{
  String, ◌≡◌, refl, subst, ◌↔◌, inl, inr, Bool, true, not, ◌&&◌, Option, none, some, List, [], ◌∷◌,
  ◌++◌, arith, eq_refl, Bool-cases, contains, Has, In, same_set, all, select, all-Has,
  all-Has_intro, select-all, all_intro, contains-map, map_witness, select-In,
}
use frappe_erp_next.Python.{Python}
use frappe_erp_next.Workflow.Design.{
  Stage, Transition, Checks, valid_saved_stage, valid_saved_routes,
}
use frappe_erp_next.Workflow.Graph.{Leads, stay, step}
use frappe_erp_next.Workflow.Graph.Walk.{reached_from, reached_from_lem}
use frappe_erp_next.Workflow.Graph.Grow.{can_finish, can_finish_lem}
use frappe_erp_next.Workflow.Activation.{
  Requirement, unique, is_start, is_end, is_wait, names_of, starts_of, ends_of, is_inside,
  kept_edges, edge_errors, stage_error, stage_errors, compare_sets, path_errors,
}

pub unique-eq-nil : (xs : List Requirement) → unique [] xs ≡ [] → xs ≡ []
unique-eq-nil [] h = refl
unique-eq-nil (x ∷ xs) h = cc

pub append-eq-nil : (xs ys : List Requirement) → xs ++ ys ≡ [] → (xs ≡ []) × (ys ≡ [])
append-eq-nil [] ys h = (refl, h)
append-eq-nil (x ∷ xs) ys h = cc

pub edge_errors-eq-nil :
    (names : List String) (es : List Transition)
    → edge_errors names es ≡ [] ↔ (all (is_inside names) es ≡ true)
edge_errors-eq-nil names [] = (λ h. refl, λ h. refl)
edge_errors-eq-nil names (e ∷ es) =
    let (to, from) = edge_errors-eq-nil names es in
    (λ h. ground (arith, to), λ h. ground (arith, from))

module _ (py : Python) (checks : Checks) (out : String → List Transition) where
  abbrev pub passes : Stage → Bool
  passes row =
      valid_saved_stage checks row
      && valid_saved_routes py row.stage_type (out row.name)
      && not (is_wait row)

  pub stage_errors-eq-nil :
      (rows : List Stage) → stage_errors py checks out rows ≡ [] ↔ (all passes rows ≡ true)
  stage_errors-eq-nil [] = (λ h. refl, λ h. refl)
  stage_errors-eq-nil (row ∷ rows) =
      let (to, from) = stage_errors-eq-nil rows in
      (
        λ h.
            let (a, b) =
              append-eq-nil (stage_error py checks out row) (stage_errors py checks out rows) h in
            ground (arith, to b),
        λ h. ground (arith, from),
      )

pub Has-name : (stages : List Stage) (row : Stage) → In row stages → Has (names_of stages) row.name
Has-name stages row m = contains-map (λ r. r.name) stages m

pub Has-end-name :
    (stages : List Stage) (f : String) → Has (ends_of stages) f → Has (names_of stages) f
Has-end-name stages f h =
    let (row, m, q) = map_witness (λ r. r.name) (select is_end stages) f h in
    let (n, p) = select-In is_end stages m in
    subst (λ (z : String). Has (names_of stages) z) q (Has-name stages row n)

pub Has-start-name :
    (stages : List Stage) (s : String) → starts_of stages ≡ s ∷ [] → Has (names_of stages) s
Has-start-name stages s h =
    let (row, m, q) =
      map_witness (λ r. r.name) (select is_start stages) s (rw h (ground (arith, eq_refl s))) in
    let (n, p) = select-In is_start stages m in
    subst (λ (z : String). Has (names_of stages) z) q (Has-name stages row n)

module _ (names : List String) (edges : List Transition)
    (inside : (e : Transition) → In e edges → is_inside names e ≡ true) where
  pub Leads-inside : (a b : String) → Has names a → Leads edges a b → Has names b
  Leads-inside a b h stay = h
  Leads-inside a b h (step e m p q l) =
      subst (λ (z : String). Has names z) q (ground (arith, inside e m))

  pub Leads-inside_back : (a b : String) → Has names b → Leads edges a b → Has names a
  Leads-inside_back a b h stay = h
  Leads-inside_back a b h (step {b = c} e m p q l) =
      Leads-inside_back a c (subst (λ (z : String). Has names z) p (ground (arith, inside e m))) l

module _ (stages : List Stage) (transitions : List Transition) (begin : String)
    (starts : starts_of stages ≡ begin ∷ [])
    (inside : (e : Transition) → In e transitions → is_inside (names_of stages) e ≡ true) where
  abbrev pub Connected : Type 0
  Connected =
      ((row : Stage) → In row stages → Leads transitions begin row.name)
      × ((row : Stage)
          → In row stages
          → (f : String) × Has (ends_of stages) f × Leads transitions row.name f)

  pub sets-Connected :
      (r c : List String)
      → ((x : String) → Has r x ↔ Leads transitions begin x)
      → ((x : String) → Has c x ↔ ((f : String) × Has (ends_of stages) f × Leads transitions x f))
      → (same_set r (names_of stages) && same_set c (names_of stages)) ≡ true
      → Connected
  sets-Connected r c lr lc h = (
    λ row m.
        (lr row.name).0
          (all-Has r (names_of stages) row.name (ground arith) (Has-name stages row m)),
    λ row m.
        (lc row.name).0
          (all-Has c (names_of stages) row.name (ground arith) (Has-name stages row m)),
  )

  pub all_names :
      (r : List String)
      → ((row : Stage) → In row stages → Has r row.name)
      → all (contains r) (names_of stages) ≡ true
  all_names r h = all-Has_intro r (names_of stages) λ a k.
      let (row, m, q) = map_witness (λ x. x.name) stages a k in
      subst (λ (z : String). Has r z) q (h row m)

  pub Connected-sets :
      (r c : List String)
      → ((x : String) → Has r x ↔ Leads transitions begin x)
      → ((x : String) → Has c x ↔ ((f : String) × Has (ends_of stages) f × Leads transitions x f))
      → Connected
      → (same_set r (names_of stages) && same_set c (names_of stages)) ≡ true
  Connected-sets r c lr lc (reach, finish) =
      let into_r = all_names r (λ row m. (lr row.name).1 (reach row m)) in
      let into_c = all_names c (λ row m. (lc row.name).1 (finish row m)) in
      let from_r = all-Has_intro (names_of stages) r (λ a k.
        Leads-inside (names_of stages) transitions inside begin a
          (Has-start-name stages begin starts) ((lr a).0 k)) in
      let from_c = all-Has_intro (names_of stages) c (λ a k.
        let (f, e, l) = (lc a).0 k in
        Leads-inside_back (names_of stages) transitions inside a f (Has-end-name stages f e) l) in
      ground arith

  pub kept_all : kept_edges stages transitions ≡ transitions
  kept_all =
      select-all (is_inside (names_of stages)) transitions
        (all_intro (is_inside (names_of stages)) transitions inside)

  pub path_errors_iff : path_errors stages transitions (begin ∷ []) ≡ some [] ↔ Connected
  path_errors_iff =
      let (r, er, lr) = reached_from_lem transitions begin in
      let (c, ec, lc) = can_finish_lem transitions (ends_of stages) in
      rw (kept_all, er, ec)
        (
          λ h. sets-Connected r c lr lc (ground arith),
          λ k. ground (arith, Connected-sets r c lr lc k),
        )

pub compare_sets_total :
    (names : List String) (a b : Option (List String)) {r c : List String}
    → a ≡ some r
    → b ≡ some c
    → (paths : List Requirement) × (compare_sets names a b ≡ some paths)
compare_sets_total names (some r) (some c) p q =
    elim (Bool-cases (same_set r names && same_set c names)) [
      | inl e ↦ rw e ([], refl)
      | inr n ↦ rw n (_, refl)
    ]
compare_sets_total names none b p q = cc
compare_sets_total names (some r) none p q = cc

pub path_errors_total :
    (stages : List Stage) (transitions : List Transition) (starts : List String)
    → (paths : List Requirement) × (path_errors stages transitions starts ≡ some paths)
path_errors_total stages transitions [] = ([], refl)
path_errors_total stages transitions (begin ∷ []) =
    compare_sets_total (names_of stages) (reached_from (kept_edges stages transitions) begin)
      (can_finish transitions (ends_of stages))
      (reached_from_lem (kept_edges stages transitions) begin).1
      (can_finish_lem transitions (ends_of stages)).1
path_errors_total stages transitions (a ∷ b ∷ rest) = ([], refl)
