-- ===== src/Access/Delegation.antt =====
-- asoud_erp/services/delegation.py: the rules against privilege escalation when roles are granted.
-- `SYSTEM_ADMIN_ROLE` is the constant of asoud_erp/services/system_admin.py.
use frappe_erp_next.Prelude.{
  String, ◌≡◌, ◌↔◌, refl, inl, inr, Bool, true, false, not, Option, none, some, List, [], ◌∷◌,
  arith, if◌then◌else◌, contains, Has, all, any, select, Bool-cases, any-none, any-none_intro,
  all-Has, all-Has_intro,
}

pub data Refusal : Type 0 where
  hr_roles not_delegate admin_roles : Refusal
  -- the roles that the actor lacks
  missing : List String → Refusal

abbrev pub delegate_role : String
delegate_role = "ASOUD Role Assigner"

abbrev pub admin_only_roles : List String
admin_only_roles = "System Manager" ∷ "ASOUD Role Assigner" ∷ []

abbrev pub hr_admin_only_roles : List String
hr_admin_only_roles = "HR" ∷ "HR User" ∷ "HR Manager" ∷ []

-- The roles against which the grant is measured: those in the target office, if there is one.
abbrev pub held_in : List String → Option (List String) → List String
held_in actor_roles none = actor_roles
held_in actor_roles (some office_roles) = office_roles

abbrev pub lacking : List String → List String → List String
lacking held = select (λ r. not (contains held r))

abbrev missing_or_none : List String → Option Refusal
missing_or_none [] = none
missing_or_none (r ∷ rs) = some (missing (r ∷ rs))

-- `escalation_violation(...)`
unfoldable pub escalation_violation :
    Bool → List String → List String → Option (List String) → Option Refusal
escalation_violation actor_is_admin actor_roles granted_roles actor_office_roles =
    if actor_is_admin
    then none
    else if any (contains hr_admin_only_roles) granted_roles
    then some hr_roles
    else if not (contains actor_roles delegate_role)
    then some not_delegate
    else if any (contains admin_only_roles) granted_roles
    then some admin_roles
    else missing_or_none (lacking (held_in actor_roles actor_office_roles) granted_roles)

lacking-none :
    (held granted : List String)
    → missing_or_none (lacking held granted) ≡ none ↔ (all (contains held) granted ≡ true)
lacking-none held [] = (λ h. refl, λ h. refl)
lacking-none held (r ∷ rs) = elim (Bool-cases (contains held r)) [
  | inl y ↦
      (λ h. ground (arith, (lacking-none held rs).0), λ h. ground (arith, (lacking-none held rs).1))
  | inr n ↦ (λ h. ground arith, λ h. ground arith)
]

-- The roles that only a system administrator hands out.
abbrev pub IsReserved : String → Type 0
IsReserved r =
    Has ("System Manager" ∷ "ASOUD Role Assigner" ∷ "HR" ∷ "HR User" ∷ "HR Manager" ∷ []) r

-- What a grant needs. With an office the actor's roles elsewhere do not count.
pub record MayGrant (actor granted : List String) (office : Option (List String)) : Type 0 where
  pub delegate : Has actor "ASOUD Role Assigner"
  pub unreserved : (r : String) → Has granted r → ¬ IsReserved r
  pub held_anywhere : office ≡ none → (r : String) → Has granted r → Has actor r
  pub held_there :
      (roles : List String) → office ≡ some roles → (r : String) → Has granted r → Has roles r

unreserved_lem :
    (r : String)
    → contains hr_admin_only_roles r ≡ false
    → contains admin_only_roles r ≡ false
    → ¬ IsReserved r
unreserved_lem r h a k = ground arith

module _ (actor granted : List String) where
  no_hr :
      ((r : String) → Has granted r → ¬ IsReserved r)
      → any (contains hr_admin_only_roles) granted ≡ false
  no_hr h = any-none_intro (contains hr_admin_only_roles) granted (λ r k.
      elim (Bool-cases (contains hr_admin_only_roles r)) [
        | inl y ↦ absurd (h r k (ground arith))
        | inr n ↦ n
      ])

  no_admin :
      ((r : String) → Has granted r → ¬ IsReserved r)
      → any (contains admin_only_roles) granted ≡ false
  no_admin h = any-none_intro (contains admin_only_roles) granted (λ r k.
      elim (Bool-cases (contains admin_only_roles r)) [
        | inl y ↦ absurd (h r k (ground arith))
        | inr n ↦ n
      ])

  may_grant :
      (office : Option (List String))
      → any (contains hr_admin_only_roles) granted ≡ false
      → Has actor delegate_role
      → any (contains admin_only_roles) granted ≡ false
      → all (contains (held_in actor office)) granted ≡ true
      → MayGrant actor granted office
  may_grant office h d a held = record {
    delegate = d;
    unreserved = λ r k.
        unreserved_lem r (any-none (contains hr_admin_only_roles) granted r h k)
          (any-none (contains admin_only_roles) granted r a k);
    held_anywhere = λ e r k. all-Has actor granted r (rw e at held) k;
    held_there = λ roles e r k. all-Has roles granted r (rw e at held) k;
  }

  all_held :
      (office : Option (List String))
      → MayGrant actor granted office
      → all (contains (held_in actor office)) granted ≡ true
  all_held none m = all-Has_intro actor granted (m.held_anywhere refl)
  all_held (some roles) m = all-Has_intro roles granted (m.held_there roles refl)

-- A grant by somebody who is no system administrator goes through exactly when the actor has the
-- role ASOUD Role Assigner, no granted role is System Manager, ASOUD Role Assigner, HR, HR User or
-- HR Manager, and the actor has every granted role: where an office is given, among the roles there,
-- else among all.
pub escalation_violation-none :
    (actor_roles granted_roles : List String) (actor_office_roles : Option (List String))
    → (escalation_violation false actor_roles granted_roles actor_office_roles ≡ none)
      ↔ MayGrant actor_roles granted_roles actor_office_roles
unfolding escalation_violation
escalation_violation-none actor granted office = (
  λ h.
      let (p, q, r, k) =
        (go (any (contains hr_admin_only_roles) granted) (contains actor delegate_role)
            (any (contains admin_only_roles) granted)).0
          h in
      may_grant actor granted office p q r k,
  λ m.
      (go (any (contains hr_admin_only_roles) granted) (contains actor delegate_role)
          (any (contains admin_only_roles) granted)).1
        (
          no_hr actor granted m.unreserved,
          m.delegate,
          no_admin actor granted m.unreserved,
          all_held actor granted office m,
        ),
)
  where
    held : List String
    held = held_in actor office

    go :
        (hr delegate admin : Bool)
        → ((if hr
              then some hr_roles
              else if not delegate
              then some not_delegate
              else if admin
              then some admin_roles
              else missing_or_none (lacking held granted))
            ≡ none)
          ↔ ((hr ≡ false)
              × (delegate ≡ true)
              × (admin ≡ false)
              × (all (contains held) granted ≡ true))
    go true d a = (λ h. cc, λ (p, q, r, k). cc)
    go false false a = (λ h. cc, λ (p, q, r, k). cc)
    go false true true = (λ h. cc, λ (p, q, r, k). cc)
    go false true false = (
      λ h. (refl, refl, refl, (lacking-none held granted).0 h),
      λ (p, q, r, k). (lacking-none held granted).1 k,
    )
