-- ===== src/Directive/Paging.antt =====
-- asoud_erp/services/directive_paging.py: cursors of pages and the index of reviews. A cursor is
-- the number whose text the source returns; `start` is `int(start)`.
use frappe_erp_next.Prelude.{
  ℕ, zero, suc, ◌+◌, ◌≤◌, ◌<◌, String, ◌≡◌, refl, ◌⊎◌, inl, inr, Bool, true, false, Option, none,
  some, List, [], ◌∷◌, ◌==◌, ltb, leb, leb→le, eq_iff, arith, if◌then◌else◌, length, take, find,
  Bool-cases,
}
use frappe_erp_next.Prelude.Int.{ℤ, pos, negsuc}

-- `max(0, int(start))`
abbrev pub offset_of : ℤ → ℕ
offset_of (pos n) = n
offset_of (negsuc n) = 0

-- `next_cursor(start, raw_count, page_size)`
unfoldable pub next_cursor : ℤ → ℕ → ℕ → Option ℕ
next_cursor start raw_count page_size =
    if ltb raw_count page_size then none else some (offset_of start + raw_count)

pub record Limits : Type 0 where
  pub offset : ℕ
  pub branch_limit : ℕ
  pub page_limit : ℕ

-- `history_limits(offset, page_size)`
unfoldable pub history_limits : ℕ → ℕ → Limits
history_limits offset page_size = record {
  offset = offset;
  branch_limit = offset + (page_size + 1);
  page_limit = page_size + 1;
}

-- A row of a review; an unset subject is "".
pub record Review : Type 0 where
  pub subject : String
  pub name : String

-- `index.setdefault(subject, row)`, the index as its rows
abbrev pub set_default : Review → List Review → List Review
set_default row [] = row ∷ []
set_default row (r ∷ rs) = if r.subject == row.subject then r ∷ rs else r ∷ set_default row rs

abbrev pub index_from : List Review → List Review → List Review
index_from index [] = index
index_from index (row ∷ rows) =
    let kept = index_from index rows in
    let added = index_from (set_default row index) rows in if row.subject == "" then kept else added

-- `review_index(rows)`
unfoldable pub review_index : List Review → List Review
review_index rows = index_from [] rows

abbrev pub of_subject : String → Review → Bool
of_subject key row = row.subject == key

leb-false : (a b : ℕ) → leb a b ≡ false → b < a
leb-false a b h = ground arith

module _ {ℓ} {A : Type ℓ} where
  -- `lookahead_page(start, rows, page_size)`
  unfoldable pub lookahead_page : ℤ → List A → ℕ → List A × Option ℕ
  lookahead_page start rows page_size =
      if leb (length rows) page_size
      then (rows, none)
      else (take page_size rows, some (offset_of start + page_size))

  -- What a query reads: `OFFSET n`, and then `LIMIT m` is `take m`.
  abbrev pub drop : ℕ → List A → List A
  drop zero xs = xs
  drop (suc n) [] = []
  drop (suc n) (x ∷ xs) = drop n xs

  take-short : (n : ℕ) (xs : List A) → length xs ≤ n → take n xs ≡ xs
  take-short zero [] h = refl
  take-short zero (x ∷ xs) h = absurd (omega arith)
  take-short (suc n) [] h = refl
  take-short (suc n) (x ∷ xs) h = rw (take-short n xs (omega arith)) refl

  take-take-suc : (n : ℕ) (xs : List A) → take n (take (suc n) xs) ≡ take n xs
  take-take-suc zero xs = refl
  take-take-suc (suc n) [] = refl
  take-take-suc (suc n) (x ∷ xs) = rw (take-take-suc n xs) refl

  take-suc-short :
      (n : ℕ) (xs : List A)
      → length (take (suc n) xs) ≤ n
      → (length xs ≤ n) × (take (suc n) xs ≡ xs)
  take-suc-short n [] h = (omega arith, refl)
  take-suc-short zero (x ∷ xs) h = absurd (omega arith)
  take-suc-short (suc n) (x ∷ xs) h =
      let (a, b) = take-suc-short n xs (omega arith) in (omega arith, rw b refl)

  take-suc-long : (n : ℕ) (xs : List A) → n < length (take (suc n) xs) → n < length xs
  take-suc-long n [] h = absurd (omega arith)
  take-suc-long zero (x ∷ xs) h = omega arith
  take-suc-long (suc n) (x ∷ xs) h = let a = take-suc-long n xs (omega arith) in omega arith

  length-drop : (k : ℕ) (xs : List A) {n : ℕ} → n < length (drop k xs) → k + n < length xs
  length-drop zero xs h = omega arith
  length-drop (suc k) [] h = absurd (omega arith)
  length-drop (suc k) (x ∷ xs) h = let a = length-drop k xs h in omega arith

  -- A page read one row ahead shows exactly the rows of its page, and either it shows the last of
  -- all rows or its cursor is where the next page begins, before the end of the rows.
  pub lookahead_page_lem :
      (start page_size : ℕ) (all_rows : List A)
      → ((lookahead_page (pos start) (take (suc page_size) (drop start all_rows)) page_size).0
          ≡ take page_size (drop start all_rows))
        × ((((lookahead_page (pos start) (take (suc page_size) (drop start all_rows)) page_size).1
                ≡ none)
              × (length (drop start all_rows) ≤ page_size))
            ⊎ (((lookahead_page
                    (pos start)
                    (take (suc page_size) (drop start all_rows))
                    page_size).1
                  ≡ some (start + page_size))
                × (start + page_size < length all_rows)))
  unfolding lookahead_page
  lookahead_page_lem start page_size all_rows =
      elim (Bool-cases (leb (length (take (suc page_size) (drop start all_rows))) page_size)) [
        | inl y ↦
            let (short, same) = take-suc-short page_size (drop start all_rows) (leb→le _ _ y) in
            let whole = take-short page_size (drop start all_rows) short in
            (rw (y, same, whole) refl, inl (rw y refl, short))
        | inr n ↦
            let long = take-suc-long page_size (drop start all_rows) (leb-false _ _ n) in
            (
              rw (n, take-take-suc page_size (drop start all_rows)) refl,
              inr (rw n refl, length-drop start all_rows long),
            )
      ]

-- What a search finds first, in `xs` and then in `ys`.
abbrev first_of : Option Review → Option Review → Option Review
first_of (some r) rest = some r
first_of none rest = rest

find-set_default :
    (key : String) (row : Review) (index : List Review)
    → find (of_subject key) (set_default row index)
      ≡ first_of (find (of_subject key) index) (if row.subject == key then some row else none)
find-set_default key row [] = ground arith
find-set_default key row (r ∷ rs) = grind (arith, find-set_default key row rs, eq_iff)

first_of-none : (o : Option Review) → o ≡ first_of o none
first_of-none none = refl
first_of-none (some r) = refl

first_of_assoc :
    (o : Option Review) (b : Bool) (row : Review) (rest : Option Review)
    → first_of (first_of o (if b then some row else none)) rest
      ≡ first_of o (if b then some row else rest)
first_of_assoc none true row rest = refl
first_of_assoc none false row rest = refl
first_of_assoc (some r) b row rest = refl

other_subject : (a key : String) → (key == "") ≡ false → a ≡ "" → (a == key) ≡ false
other_subject a key h p = grind (arith, eq_iff)

find-index_from :
    (key : String) (rows index : List Review)
    → (key == "") ≡ false
    → find (of_subject key) (index_from index rows)
      ≡ first_of (find (of_subject key) index) (find (of_subject key) rows)
find-index_from key [] index h = first_of-none (find (of_subject key) index)
find-index_from key (row ∷ rows) index h = elim (Bool-cases (row.subject == "")) [
  | inl e ↦
      let other = other_subject (row.subject) key h ((eq_iff row.subject "").0 e) in
      rw (e, other) (find-index_from key rows index h)
  | inr n ↦
      rw (n, find-index_from key rows (set_default row index) h, find-set_default key row index)
        (first_of_assoc (find (of_subject key) index) (row.subject == key) row
          (find (of_subject key) rows))
]

-- The index has, for a subject, the first of its rows: the earliest review, as the rows are ordered.
pub review_index-first :
    (rows : List Review) (subject : String)
    → (subject == "") ≡ false
    → find (of_subject subject) (review_index rows) ≡ find (of_subject subject) rows
unfolding review_index
review_index-first rows subject h = find-index_from subject rows [] h
