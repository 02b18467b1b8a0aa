-- ===== src/Workflow/Graph/Grow.antt =====
-- The growing set ends within its fuel, and holds exactly the stages that lead to one of its seeds.
use frappe_erp_next.Prelude.{
  ℕ, zero, suc, ◌<◌, ◌≤◌, ◌≡◌, refl, subst, sym, ◌↔◌, ◌⊎◌, inl, inr, String, Bool, true, false, not,
  ◌&&◌, Option, some, List, [], ◌∷◌, ◌++◌, eq_refl, arith, contains, is_empty, contains-append, Has,
  In, here, there, length, select, Bool-cases, map_witness, contains-map, select-In, In-select,
}
use frappe_erp_next.Workflow.Design.{Transition}
use frappe_erp_next.Workflow.Graph.{fresh, grow, Leads, stay, step, Leads-cons}

-- The edges whose source the set lacks.
abbrev outer : List Transition → List String → ℕ
outer edges finish = length (select (λ e. not (contains finish e.from_stage)) edges)

abbrev Within : List String → List String → Type 0
Within f g = (x : String) → Has f x → Has g x

outer-le :
    (edges : List Transition) (f g : List String) → Within f g → outer edges g ≤ outer edges f
outer-le [] f g w = omega arith
outer-le (e ∷ es) f g w = ground (arith, outer-le es f g w, w e.from_stage)

outer-lt :
    (edges : List Transition) (f g : List String) (e : Transition)
    → Within f g
    → In e edges
    → contains f e.from_stage ≡ false
    → Has g e.from_stage
    → outer edges g < outer edges f
outer-lt [] f g e w m a b = elim m [ ]
outer-lt (d ∷ es) f g e w here a b = ground (arith, outer-le es f g w)
outer-lt (d ∷ es) f g e w (there m) a b = ground (arith, outer-lt es f g e w m a b, w d.from_stage)

abbrev is_fresh : List String → Transition → Bool
is_fresh finish e = contains finish e.to_stage && not (contains finish e.from_stage)

fresh_witness :
    (edges : List Transition) (finish : List String) (x : String)
    → Has (fresh edges finish) x
    → (e : Transition) × In e edges × (is_fresh finish e ≡ true) × (e.from_stage ≡ x)
fresh_witness edges finish x h =
    let (e, m, q) = map_witness (λ d. d.from_stage) (select (is_fresh finish) edges) x h in
    let (n, p) = select-In (is_fresh finish) edges m in (e, n, p, q)

fresh-lt :
    (edges : List Transition) (finish : List String) (x : String)
    → Has (fresh edges finish) x
    → outer edges (fresh edges finish ++ finish) < outer edges finish
fresh-lt edges finish x h =
    let (e, m, p, q) = fresh_witness edges finish x h in
    outer-lt edges finish (fresh edges finish ++ finish) e
      (λ y k. ground (arith, contains-append (fresh edges finish) finish y)) m (ground arith)
      (rw q (ground (arith, contains-append (fresh edges finish) finish x)))

pub outer_le_length :
    (edges : List Transition) (finish : List String) → outer edges finish ≤ length edges
outer_le_length [] finish = omega arith
outer_le_length (e ∷ es) finish = ground (arith, outer_le_length es finish)

nonempty_witness : (xs : List String) → is_empty xs ≡ false → (x : String) × Has xs x
nonempty_witness [] h = cc
nonempty_witness (x ∷ xs) h = (x, ground (arith, eq_refl x))

pub grow_total :
    (edges : List Transition) (fuel : ℕ) (finish : List String)
    → outer edges finish < fuel
    → (r : List String) × (grow edges fuel finish ≡ some r)
unfolding grow
grow_total edges zero finish h = absurd (omega arith)
grow_total edges (suc fuel) finish h = elim (Bool-cases (is_empty (fresh edges finish))) [
  | inl e ↦ rw e (finish, refl)
  | inr n ↦ rw n (
      let (x, k) = nonempty_witness (fresh edges finish) n in
      grow_total edges fuel (fresh edges finish ++ finish)
        (omega (arith, fresh-lt edges finish x k)))
]

-- What the loop keeps: nothing is lost, the result takes in the source of every edge into it, and a
-- property that the edges keep backwards holds of all that is found.
pub record Grown (edges : List Transition) (finish r : List String) : Type 1 where
  pub keeps : (x : String) → Has finish x → Has r x
  pub closed : (e : Transition) → In e edges → Has r e.to_stage → Has r e.from_stage
  pub sound :
      (P : String → Type 0)
      → ((x : String) → Has finish x → P x)
      → ((e : Transition) → In e edges → P e.to_stage → P e.from_stage)
      → (x : String) → Has r x
      → P x

Has-fresh :
    (edges : List Transition) (finish : List String) (e : Transition)
    → In e edges
    → Has finish e.to_stage
    → contains finish e.from_stage ≡ false
    → is_empty (fresh edges finish) ≡ false
Has-fresh edges finish e m k new = not_empty (fresh edges finish) (
    contains-map (λ d. d.from_stage) (select (is_fresh finish) edges)
      (In-select (is_fresh finish) edges m (ground arith)))
  where
    not_empty : (xs : List String) → Has xs e.from_stage → is_empty xs ≡ false
    not_empty [] h = cc
    not_empty (x ∷ xs) h = refl

grow_done :
    (edges : List Transition) (finish : List String)
    → is_empty (fresh edges finish) ≡ true
    → Grown edges finish finish
grow_done edges finish h = record {
  keeps = λ x k. k;
  closed = λ e m k. ground (arith, Has-fresh edges finish e m k);
  sound = λ P holds along x k. holds x k;
}

grow_more :
    (edges : List Transition) (finish : List String) {r : List String}
    → Grown edges (fresh edges finish ++ finish) r
    → Grown edges finish r
grow_more edges finish g = record {
  keeps = λ x k. g.keeps x (ground (arith, contains-append (fresh edges finish) finish x));
  closed = g.closed;
  sound = λ P holds along.
      g.sound P (λ x k. from_edge P holds along x (Bool-cases (contains finish x)) k) along;
}
  where
    from_edge :
        (P : String → Type 0)
        → ((x : String) → Has finish x → P x)
        → ((e : Transition) → In e edges → P e.to_stage → P e.from_stage)
        → (x : String) → (contains finish x ≡ true) ⊎ (contains finish x ≡ false)
        → Has (fresh edges finish ++ finish) x
        → P x
    from_edge P holds along x (inl old) k = holds x old
    from_edge P holds along x (inr new) k =
        let (e, m, p, q) =
          fresh_witness edges finish x
            (ground (arith, contains-append (fresh edges finish) finish x)) in
        subst P q (along e m (holds e.to_stage (ground arith)))

pub grow-Grown :
    (edges : List Transition) (fuel : ℕ) (finish : List String) {r : List String}
    → grow edges fuel finish ≡ some r
    → Grown edges finish r
unfolding grow
grow-Grown edges zero finish h = cc
grow-Grown edges (suc fuel) finish {r} h = elim (Bool-cases (is_empty (fresh edges finish))) [
  | inl e ↦
      let q : finish ≡ r = some_eq (rw e at h) in
      subst (λ (z : List String). Grown edges finish z) q (grow_done edges finish e)
  | inr n ↦
      grow_more edges finish (grow-Grown edges fuel (fresh edges finish ++ finish) (rw n at h))
]
  where
    some_eq : {a b : List String} → some a ≡ some b → a ≡ b
    some_eq p = cc

-- The fixed point of `activation_requirements`, from the end stages.
unfoldable pub can_finish : List Transition → List String → Option (List String)
unfolding grow
can_finish edges ends = grow edges (suc (length edges)) ends

finishes :
    (edges : List Transition) (ends : List String) {r : List String}
    → Grown edges ends r
    → {x f : String} → Leads edges x f
    → Has r f
    → Has r x
finishes edges ends g stay k = k
finishes edges ends {r} g (step e m p q l) k =
    finishes edges ends g l
      (subst (λ (z : String). Has r z) p (g.closed e m (subst (λ (z : String). Has r z) (sym q) k)))

-- The growing set ends within its bound, and it is exactly the stages from which edges lead to an
-- end.
pub can_finish_lem :
    (edges : List Transition) (ends : List String)
    → (r : List String) × (can_finish edges ends ≡ some r)
      × ((x : String) → Has r x ↔ ((f : String) × Has ends f × Leads edges x f))
unfolding can_finish
can_finish_lem edges ends =
    let (r, e) =
      grow_total edges (suc (length edges)) ends (omega (arith, outer_le_length edges ends)) in
    let g = grow-Grown edges (suc (length edges)) ends e in
    (
      r,
      e,
      λ x. (
        g.sound (λ z. (f : String) × Has ends f × Leads edges z f) (λ z k. (z, k, stay))
            (λ d m (f, k, l). (f, k, Leads-cons edges d m refl refl l)) x,
        λ (f, k, l). finishes edges ends g l (g.keeps f k),
      ),
    )
