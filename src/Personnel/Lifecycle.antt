-- ===== src/Personnel/Lifecycle.antt =====
-- The life of an order, abstractly: its phases and the moves between them.
use frappe_erp_next.Prelude.{
  String, ◌≡◌, refl, sym, subst, ◌==◌, eq_iff, true, Option, some, ap, ◌∙◌, if◌then◌else◌,
}

pub data Phase : Type 0 where
  draft pending final rejected cancelled failed : Phase

-- The text that the code stores under `status`.
abbrev pub label : Phase → String
label draft = "draft"
label pending = "pending"
label final = "final"
label rejected = "rejected"
label cancelled = "cancelled"
label failed = "failed"

pub data Move : Phase → Phase → Type 0 where
  send : Move draft pending
  issue : Move pending final
  refuse_draft : Move draft rejected
  refuse : Move pending rejected
  cancel : Move pending cancelled
  fail : Move pending failed

phase_of : String → Option Phase
phase_of s =
    if s == "draft"
    then some draft
    else if s == "pending"
    then some pending
    else if s == "final"
    then some final
    else if s == "rejected"
    then some rejected
    else if s == "cancelled"
    then some cancelled
    else some failed

phase_of-label : (p : Phase) → phase_of (label p) ≡ some p
unfolding phase_of
phase_of-label draft = refl
phase_of-label pending = refl
phase_of-label final = refl
phase_of-label rejected = refl
phase_of-label cancelled = refl
phase_of-label failed = refl

some_eq : (p q : Phase) → some p ≡ some q → p ≡ q
some_eq p q h = cc

-- Different phases are stored as different texts.
pub label-injective : (p q : Phase) → label p ≡ label q → p ≡ q
label-injective p q h = some_eq p q (sym (phase_of-label p) ∙ ap phase_of h ∙ phase_of-label q)

-- Any number of moves.
pub data Reaches : Phase → Phase → Type 0 where
  stay : {p : Phase} → Reaches p p
  move : {p q r : Phase} → Move p q → Reaches q r → Reaches p r

pub join : {p q r : Phase} → Reaches p q → Reaches q r → Reaches p r
join stay b = b
join (move m a) b = move m (join a b)

-- No move leads out of `final`.
pub final_stays : {q : Phase} → Reaches final q → q ≡ final
final_stays stay = refl
final_stays (move m rest) = elim m [ ]

-- What reaches a phase from the one whose text is stored reaches it from there.
pub from_phase : (p q : Phase) {r : Phase} → (label p == label q) ≡ true → Reaches q r → Reaches p r
from_phase p q {r} h rest =
    subst (λ t. Reaches t r) (sym (label-injective p q ((eq_iff (label p) (label q)).0 h))) rest
