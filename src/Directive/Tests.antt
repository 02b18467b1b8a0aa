-- ===== src/Directive/Tests.antt =====
-- Pages and reviews at concrete rows.
use frappe_erp_next.Prelude.{ℕ, ◌+◌, ◌≤◌, ◌<◌, ◌≡◌, ◌⊎◌, none, some, List, [], ◌∷◌, length, take}
use frappe_erp_next.Prelude.Int.{pos}
use frappe_erp_next.Directive.Paging.{Review, drop, lookahead_page, lookahead_page_lem}

abbrev numbers : List ℕ
numbers = 1 ∷ 2 ∷ 3 ∷ 4 ∷ 5 ∷ []

lookahead_page_lem_example :
    ((lookahead_page (pos 2) (take 3 (drop 2 numbers)) 2).0 ≡ take 2 (drop 2 numbers))
    × ((((lookahead_page (pos 2) (take 3 (drop 2 numbers)) 2).1 ≡ none)
          × (length (drop 2 numbers) ≤ 2))
        ⊎ (((lookahead_page (pos 2) (take 3 (drop 2 numbers)) 2).1 ≡ some (2 + 2))
            × (2 + 2 < length numbers)))
lookahead_page_lem_example = lookahead_page_lem 2 2 numbers

abbrev reviews : List Review
reviews =
    record { subject = ""; name = "a" }
    ∷ record { subject = "task"; name = "b" }
    ∷ record { subject = "task"; name = "c" }
    ∷ []
