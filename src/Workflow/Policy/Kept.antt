-- ===== src/Workflow/Policy/Kept.antt =====
-- A list of targets that is read again is read as it is.
use frappe_erp_next.Prelude.{
  String, false, ◌==◌, ◌≡◌, inl, inr, refl, ap, ◌∙◌, List, [], ◌∷◌, contains, Bool-cases,
}
use frappe_erp_next.Python.{
  Value, Items, Python, null, bool, int, str, list, dict, nil, cons, str_of, strip,
}
use frappe_erp_next.Python.Strip.{strip-strip}
use frappe_erp_next.Workflow.Runtime.Assign.{values_of, unique_from, unique_strings, stripped}
use frappe_erp_next.Workflow.Policy.{texts_list}

-- Texts that stripping leaves and that are not empty.
data Clean : List String → Type 0 where
  none_left : Clean []
  one_more :
      {s : String} {rest : List String}
      → strip s ≡ s
      → (s == "") ≡ false
      → Clean rest
      → Clean (s ∷ rest)

-- Texts that differ from one another and from those that were seen.
data Fresh : List String → List String → Type 0 where
  no_more : {seen : List String} → Fresh seen []
  new :
      {seen : List String} {s : String} {rest : List String}
      → contains seen s ≡ false
      → Fresh (s ∷ seen) rest
      → Fresh seen (s ∷ rest)

unique_from-Fresh : (seen xs : List String) → Fresh seen (unique_from seen xs)
unique_from-Fresh seen [] = no_more
unique_from-Fresh seen (x ∷ xs) = elim (Bool-cases (contains seen x)) [
  | inl e ↦ rw e (unique_from-Fresh seen xs)
  | inr e ↦ rw e (new e (unique_from-Fresh (x ∷ seen) xs))
]

Fresh-unique_from : (seen xs : List String) → Fresh seen xs → unique_from seen xs ≡ xs
Fresh-unique_from seen [] f = refl
Fresh-unique_from seen (x ∷ xs) (new e f) =
    rw e (ap (λ r. x ∷ r) (Fresh-unique_from (x ∷ seen) xs f))

unique_from-Clean : (seen xs : List String) → Clean xs → Clean (unique_from seen xs)
unique_from-Clean seen [] c = none_left
unique_from-Clean seen (x ∷ xs) (one_more s e c) = elim (Bool-cases (contains seen x)) [
  | inl h ↦ rw h (unique_from-Clean seen xs c)
  | inr h ↦ rw h (one_more s e (unique_from-Clean (x ∷ seen) xs c))
]

module _ (py : Python) where
  stripped-Clean : (vs : Items) → Clean (stripped py vs)
  stripped-Clean nil = none_left
  stripped-Clean (cons v vs) = elim (Bool-cases (strip (str_of py v) == "")) [
    | inl e ↦ rw e (stripped-Clean vs)
    | inr e ↦ rw e (one_more (strip-strip (str_of py v)) e (stripped-Clean vs))
  ]

  Clean-stripped : (xs : List String) → Clean xs → stripped py (texts_list xs) ≡ xs
  Clean-stripped [] c = refl
  Clean-stripped (x ∷ xs) (one_more s e c) = rw (s, e) (ap (λ r. x ∷ r) (Clean-stripped xs c))

  -- What is read from a list is read again as it is.
  pub values_of_twice :
      (v : Value) → values_of py (list (texts_list (values_of py v))) ≡ values_of py v
  values_of_twice (list vs) =
      ap unique_strings (Clean-stripped _ (unique_from-Clean [] _ (stripped-Clean vs)))
      ∙ Fresh-unique_from [] _ (unique_from-Fresh [] (stripped py vs))
  values_of_twice null = refl
  values_of_twice (bool b) = refl
  values_of_twice (int z) = refl
  values_of_twice (str s) = refl
  values_of_twice (dict m) = refl
