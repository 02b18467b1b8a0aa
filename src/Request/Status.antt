-- ===== src/Request/Status.antt =====
-- asoud_erp/services/request_status.py: the status key of a request, the tab that it stands under,
-- and the counts of the tabs. An absent status is "".
use frappe_erp_next.Prelude.{
  ℕ, ◌+◌, ◌≤◌, String, ◌≡◌, ◌↔◌, refl, ◌∙◌, Bool, true, false, ◌&&◌, Option, none, some, List, [],
  ◌∷◌, ◌==◌, eq_iff, arith, if◌then◌else◌, contains,
}

-- `_INSTANCE_STATUS_KEYS`
abbrev pub instance_status_key : String → Option String
instance_status_key s =
    if s == "Failed"
    then some "failed"
    else if s == "Completed"
    then some "approved"
    else if s == "Rejected"
    then some "rejected"
    else if s == "Cancelled"
    then some "cancelled"
    else none

-- `_REQUEST_STATUS_KEYS.get(status, "submitted")`
abbrev pub request_status_key : String → String
request_status_key s =
    if s == "Draft"
    then "draft"
    else if s == "Completed"
    then "approved"
    else if s == "Rejected"
    then "rejected"
    else if s == "Cancelled"
    then "cancelled"
    else "submitted"

abbrev running_key : Bool → Bool → Bool → String
running_key at_form_stage form_submitted non_form_acted =
    if at_form_stage && form_submitted
    then "returned"
    else if non_form_acted
    then "in_review"
    else "submitted"

abbrev closed_or : String → Option String → String
closed_or otherwise none = otherwise
closed_or otherwise (some key) = key

unfoldable pub compute_status_key : String → String → Bool → Bool → Bool → String
compute_status_key instance_status request_status at_form_stage form_submitted non_form_acted =
    if instance_status == ""
    then request_status_key request_status
    else closed_or (running_key at_form_stage form_submitted non_form_acted)
        (instance_status_key instance_status)

-- `STATUS_GROUPS`
abbrev pub status_groups : List (String × String)
status_groups =
    ("submitted", "pending")
    ∷ ("in_review", "pending")
    ∷ ("returned", "pending")
    ∷ ("failed", "pending")
    ∷ ("approved", "approved")
    ∷ ("rejected", "rejected")
    ∷ ("cancelled", "")
    ∷ ("draft", "")
    ∷ []

abbrev pub group_names : List String
group_names = "pending" ∷ "approved" ∷ "rejected" ∷ []

-- `groups.get(key, "")`
abbrev pub group_in : List (String × String) → String → String
group_in [] key = ""
group_in ((k, g) ∷ rest) key = if k == key then g else group_in rest key

-- `status_group(status_key)`
unfoldable pub status_group : String → String
status_group key = group_in status_groups key

abbrev keys_in : List (String × String) → String → List String
keys_in [] group = []
keys_in ((k, g) ∷ rest) group =
    if contains group_names group && (g == group)
    then k ∷ keys_in rest group
    else keys_in rest group

-- `group_keys(group)`
unfoldable pub group_keys : String → List String
group_keys group = keys_in status_groups group

pub record Counts : Type 0 where
  pub total : ℕ
  pub pending : ℕ
  pub approved : ℕ
  pub rejected : ℕ

abbrev count_row : String → ℕ → Counts → Counts
count_row group n c =
    if group == "pending"
    then record c { pending = c.pending + n }
    else if group == "approved"
    then record c { approved = c.approved + n }
    else if group == "rejected"
    then record c { rejected = c.rejected + n }
    else c

abbrev add_rows : List (String × ℕ) → Counts → Counts
add_rows [] c = c
add_rows ((key, n) ∷ rows) c = add_rows rows (count_row (status_group key) n c)

abbrev pub sum_rows : List (String × ℕ) → ℕ
sum_rows [] = 0
sum_rows ((key, n) ∷ rows) = n + sum_rows rows

-- `tab_counts(by_status_key)`
unfoldable pub tab_counts : List (String × ℕ) → Counts
tab_counts rows =
    add_rows rows (record { total = sum_rows rows; pending = 0; approved = 0; rejected = 0 })

-- The rows whose status stands under a tab, added up.
abbrev pub sum_in : String → List (String × ℕ) → ℕ
sum_in group [] = 0
sum_in group ((key, n) ∷ rows) = (if status_group key == group then n else 0) + sum_in group rows

-- A running instance with a status of its own is never shown as decided: its request is waiting,
-- and it is `returned` exactly when it is back at the form stage after the form was submitted.
pub compute_status_key-running :
    (instance_status request_status : String) (at_form_stage form_submitted non_form_acted : Bool)
    → (instance_status == "") ≡ false
    → instance_status_key instance_status ≡ none
    → (status_group (
          compute_status_key instance_status request_status at_form_stage form_submitted
            non_form_acted)
        ≡ "pending")
      × ((compute_status_key instance_status request_status at_form_stage form_submitted
              non_form_acted
            ≡ "returned")
          ↔ ((at_form_stage && form_submitted) ≡ true))
unfolding compute_status_key status_group
compute_status_key-running i r true true n h k = rw (h, k) (refl, (λ p. refl, λ p. refl))
compute_status_key-running i r true false true h k =
    rw (h, k) (refl, (λ p. ground (arith, eq_iff "in_review" "returned"), λ p. cc))
compute_status_key-running i r true false false h k =
    rw (h, k) (refl, (λ p. ground (arith, eq_iff "submitted" "returned"), λ p. cc))
compute_status_key-running i r false s true h k =
    rw (h, k) (refl, (λ p. ground (arith, eq_iff "in_review" "returned"), λ p. cc))
compute_status_key-running i r false s false h k =
    rw (h, k) (refl, (λ p. ground (arith, eq_iff "submitted" "returned"), λ p. cc))

-- A key stands under one tab at most.
one_tab :
    (g : String)
    → ((g == "pending") ≡ true → ((g == "approved") ≡ false) × ((g == "rejected") ≡ false))
      × ((g == "approved") ≡ true → (g == "rejected") ≡ false)
one_tab g =
    (λ p. rw ((eq_iff g "pending").0 p) (refl, refl), λ p. rw ((eq_iff g "approved").0 p) refl)

count_row_lem :
    (g : String) (n : ℕ) (c : Counts)
    → ((count_row g n c).total ≡ c.total)
      × ((count_row g n c).pending ≡ c.pending + (if g == "pending" then n else 0))
      × ((count_row g n c).approved ≡ c.approved + (if g == "approved" then n else 0))
      × ((count_row g n c).rejected ≡ c.rejected + (if g == "rejected" then n else 0))
count_row_lem g n c = ground (arith, (one_tab g).0, (one_tab g).1)

count_rows :
    (rows : List (String × ℕ)) (c : Counts)
    → ((add_rows rows c).total ≡ c.total)
      × ((add_rows rows c).pending ≡ c.pending + sum_in "pending" rows)
      × ((add_rows rows c).approved ≡ c.approved + sum_in "approved" rows)
      × ((add_rows rows c).rejected ≡ c.rejected + sum_in "rejected" rows)
count_rows [] c = (refl, omega arith, omega arith, omega arith)
count_rows ((key, n) ∷ rows) c =
    let (t, p, a, r) = count_row_lem (status_group key) n c in
    let (t', p', a', r') = count_rows rows (count_row (status_group key) n c) in
    (t' ∙ t, omega arith, omega arith, omega arith)

tabs_le_total :
    (rows : List (String × ℕ))
    → sum_in "pending" rows + sum_in "approved" rows + sum_in "rejected" rows ≤ sum_rows rows
tabs_le_total [] = omega arith
tabs_le_total ((key, n) ∷ rows) =
    ground
      (arith, tabs_le_total rows, (one_tab (status_group key)).0, (one_tab (status_group key)).1)

-- Every tab counts the rows of its own group, the total counts all rows, and the tabs together
-- count no more than the total.
pub tab_counts_lem :
    (rows : List (String × ℕ))
    → ((tab_counts rows).pending ≡ sum_in "pending" rows)
      × ((tab_counts rows).approved ≡ sum_in "approved" rows)
      × ((tab_counts rows).rejected ≡ sum_in "rejected" rows)
      × ((tab_counts rows).total ≡ sum_rows rows)
      × ((tab_counts rows).pending + (tab_counts rows).approved + (tab_counts rows).rejected
          ≤ (tab_counts rows).total)
unfolding tab_counts
tab_counts_lem rows =
    let (t, p, a, r) =
      count_rows rows (record { total = sum_rows rows; pending = 0; approved = 0; rejected = 0 }) in
    let small = tabs_le_total rows in (omega arith, omega arith, omega arith, t, omega arith)
