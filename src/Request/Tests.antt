-- ===== src/Request/Tests.antt =====
-- Requests at concrete statuses.
use frappe_erp_next.Prelude.{ℕ, ◌+◌, ◌≤◌, String, ◌≡◌, List, [], ◌∷◌}
use frappe_erp_next.Request.Status.{tab_counts, sum_in, sum_rows, tab_counts_lem}

abbrev rows : List (String × ℕ)
rows = ("failed", 2) ∷ ("approved", 3) ∷ ("draft", 4) ∷ []

tab_counts_lem_example :
    ((tab_counts rows).pending ≡ sum_in "pending" rows)
    × ((tab_counts rows).approved ≡ sum_in "approved" rows)
    × ((tab_counts rows).rejected ≡ sum_in "rejected" rows)
    × ((tab_counts rows).total ≡ sum_rows rows)
    × ((tab_counts rows).pending + (tab_counts rows).approved + (tab_counts rows).rejected
        ≤ (tab_counts rows).total)
tab_counts_lem_example = tab_counts_lem rows
