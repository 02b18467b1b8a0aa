-- ===== src/Access/Admin.antt =====
-- asoud_erp/services/system_admin.py: the rule that protects the last system administrator.
use mathlib.Core.Bool.{false≢true}
use frappe_erp_next.Prelude.{
  String, ◌≡◌, ◌≢◌, ◌↔◌, ◌⊎◌, ◌∙◌, inl, inr, refl, sym, Has, Bool-cases, eq_iff, eq_refl, any-none,
  any-none_intro, Bool, true, false, not, ◌&&◌, ◌||◌, List, [], ◌∷◌, ◌==◌, arith, if◌then◌else◌,
  contains, is_empty, select, any,
}

-- `PROTECTED_USERS`
abbrev pub protected_users : List String
protected_users = "Administrator" ∷ "Guest" ∷ []

-- `SYSTEM_ADMIN_ROLE`
abbrev pub system_admin_role : String
system_admin_role = "System Manager"

-- `holds_admin_role(roles)`
abbrev pub holds_admin_role : List String → Bool
holds_admin_role roles = contains roles system_admin_role

-- `is_active_admin(...)`
unfoldable pub is_active_admin : Bool → List String → String → Bool
is_active_admin enabled roles user_type =
    enabled && (user_type == "System User") && holds_admin_role roles

-- An administrator who may stand in for `target`.
abbrev pub replaces : String → String → Bool
replaces target name = not (contains protected_users name) && not (name == target)

-- `admin_change_violation(...)`: whether the change is refused
unfoldable pub admin_change_violation : String → Bool → Bool → List String → Bool
admin_change_violation target was_admin will_be_admin other_active_admins =
    if contains protected_users target
    then false
    else if not was_admin || will_be_admin
    then false
    else is_empty (select (replaces target) other_active_admins)

select-any : (p : String → Bool) (xs : List String) → is_empty (select p xs) ≡ not (any p xs)
select-any p [] = refl
select-any p (x ∷ xs) = ground (arith, select-any p xs)

-- Who the administrators are besides: nobody but the built-in users and `target`.
none_besides :
    (target : String) (others : List String)
    → (any (replaces target) others ≡ false) ↔ (
        (name : String)
        → Has others name
        → (name ≡ "Administrator") ⊎ (name ≡ "Guest") ⊎ (name ≡ target))
none_besides target others = (
  λ h name k. named name (any-none (replaces target) others name h k),
  λ h. any-none_intro (replaces target) others (λ name k. stands_in name (h name k)),
)
  where
    named :
        (name : String)
        → replaces target name ≡ false
        → (name ≡ "Administrator") ⊎ (name ≡ "Guest") ⊎ (name ≡ target)
    named name h = elim (Bool-cases ("Administrator" == name)) [
      | inl e ↦ inl (sym ((eq_iff "Administrator" name).0 e))
      | inr n ↦ elim (Bool-cases ("Guest" == name)) [
        | inl e ↦ inr (inl (sym ((eq_iff "Guest" name).0 e)))
        | inr m ↦ inr (inr ((eq_iff name target).0 (ground arith)))
      ]
    ]

    stands_in :
        (name : String)
        → (name ≡ "Administrator") ⊎ (name ≡ "Guest") ⊎ (name ≡ target)
        → replaces target name ≡ false
    stands_in name (inl e) = rw e refl
    stands_in name (inr (inl e)) = rw e refl
    stands_in name (inr (inr e)) = rw (e, eq_refl target) (ground arith)

built_in :
    (target : String)
    → (contains protected_users target ≡ false) ↔ ((target ≢ "Administrator") × (target ≢ "Guest"))
built_in target = (
  λ h. (λ e. false≢true (sym (rw e at h)), λ e. false≢true (sym (rw e at h))),
  λ (a, g). elim (Bool-cases ("Administrator" == target)) [
    | inl e ↦ absurd (a (sym ((eq_iff "Administrator" target).0 e)))
    | inr n ↦ elim (Bool-cases ("Guest" == target)) [
      | inl e ↦ absurd (g (sym ((eq_iff "Guest" target).0 e)))
      | inr m ↦ ground arith
    ]
  ],
)

-- Whoever loses the role is the last named administrator.
pub record LosesLast (target : String) (was_admin will_be_admin : Bool) (others : List String)
    : Type 0 where
  pub not_administrator : target ≢ "Administrator"
  pub not_guest : target ≢ "Guest"
  pub had_role : was_admin ≡ true
  pub loses_role : will_be_admin ≡ false
  pub nobody_else :
      (name : String)
      → Has others name
      → (name ≡ "Administrator") ⊎ (name ≡ "Guest") ⊎ (name ≡ target)

-- A change is refused exactly where `target`, which is neither Administrator nor Guest, was an
-- administrator and is to be none, and every active administrator that is listed is Administrator,
-- Guest or `target`.
pub admin_change_violation_iff :
    (target : String) (was_admin will_be_admin : Bool) (other_active_admins : List String)
    → (admin_change_violation target was_admin will_be_admin other_active_admins ≡ true)
      ↔ LosesLast target was_admin will_be_admin other_active_admins
unfolding admin_change_violation
admin_change_violation_iff target was will others =
    elim (Bool-cases (contains protected_users target)) [
      | inl y ↦ rw y (
        λ h. cc,
        λ h. absurd (false≢true (sym ((built_in target).1 (h.not_administrator, h.not_guest)) ∙ y)),
      )
      | inr n ↦ rw n (go was will ((built_in target).0 n))
    ]
  where
    left : is_empty (select (replaces target) others) ≡ not (any (replaces target) others)
    left = select-any (replaces target) others

    go :
        (w l : Bool)
        → (target ≢ "Administrator") × (target ≢ "Guest")
        → ((if not w || l then false else is_empty (select (replaces target) others)) ≡ true)
          ↔ LosesLast target w l others
    go false l named = (λ h. cc, λ h. cc h.had_role)
    go true true named = (λ h. cc, λ h. cc h.loses_role)
    go true false (a, g) = (
      λ h. record {
        not_administrator = a;
        not_guest = g;
        had_role = refl;
        loses_role = refl;
        nobody_else = (none_besides target others).0 (ground (arith, left));
      },
      λ h. let none_left = (none_besides target others).1 h.nobody_else in ground (arith, left),
    )
