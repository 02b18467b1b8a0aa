-- ===== src/Access/Tests.antt =====
-- A grant at concrete roles.
mod Request
use frappe_erp_next.Prelude.{String, ◌≡◌, ◌↔◌, true, false, none, some, List, [], ◌∷◌}
use frappe_erp_next.Access.Admin.{admin_change_violation, admin_change_violation_iff, LosesLast}
use frappe_erp_next.Access.Delegation.{escalation_violation, escalation_violation-none, MayGrant}

abbrev actor : List String
actor = "ASOUD Role Assigner" ∷ "Stock User" ∷ []

abbrev granted : List String
granted = "Stock User" ∷ []

escalation_violation-none_example :
    (escalation_violation false actor granted (some granted) ≡ none)
    ↔ MayGrant actor granted (some granted)
escalation_violation-none_example = escalation_violation-none actor granted (some granted)

admin_change_violation_iff_example :
    (admin_change_violation "dana" true false ("dana" ∷ "Administrator" ∷ []) ≡ true)
    ↔ LosesLast "dana" true false ("dana" ∷ "Administrator" ∷ [])
admin_change_violation_iff_example =
    admin_change_violation_iff "dana" true false ("dana" ∷ "Administrator" ∷ [])
