-- ===== src/Form/Response/Fits.antt =====
-- Each branch of the normaliser gives a value of its kind.
use frappe_erp_next.Prelude.{
  not-false, either_false, zero, suc, String, true, false, not, ◌&&◌, ◌||◌, ◌==◌, ◌≡◌, inl, inr, ap,
  ◌∙◌, leb, Option, some, none, Bool-cases, subst,
}
use frappe_erp_next.Prelude.Int.{pos, negsuc}
use frappe_erp_next.Prelude.Result.{
  ok, raise_if, >>=-eq-ok, >>-eq-ok, ok_eq, raise_if-lets, test_lets,
}
use frappe_erp_next.Python.{
  Value, Items, Fields, null, bool, str, int, list, dict, nil, cons, get, truthy, str_is, len,
  str_of, is_blank,
}
use frappe_erp_next.Form.Values.{
  Outside, ResponseError, finite_number, choice_value, choice_values, checkbox_value, link_value,
  select_value, time_value, date_value, filled_text, checked_text, file_reference, is_file, is_time,
  given_or, number, is_in, is_member, options_of, choice, distinct_texts, all_in, all_hashable,
  raised, delivery_location, required, file, time, date,
}
use frappe_erp_next.Form.Response.{Kind, link_only}
use frappe_erp_next.Form.Response.Typed.{
  Fits, AreTexts, no_texts, a_text, a_number, a_flag, a_choice, some_choices, a_link, a_selection,
  a_time, a_file, a_date,
}

given_some :
    {A : Type 0} (e : ResponseError) (o : Option A) {a : A} → given_or e o ≡ ok a → o ≡ some a
given_some e none h = cc
given_some e (some x) h = ap (λ a. some a) (ok_eq h)

-- What a field of links takes is not blank.
link_lem : (v : Value) {s : String} → link_value v ≡ ok s → (s == "") ≡ false
link_lem (str t) h = elim (Bool-cases (is_blank t || not (leb (len t) 140))) [
  | inl e ↦ cc (rw e at h)
  | inr e ↦ subst (λ s. (s == "") ≡ false) (ok_eq (rw e at h)) (either_false (is_blank t) _ e).0
]
link_lem null h = cc
link_lem (bool b) h = cc
link_lem (int z) h = cc
link_lem (list xs) h = cc
link_lem (dict m) h = cc

texts_lem : (out : Outside) (seen xs : Items) → AreTexts (distinct_texts out seen xs)
texts_lem out seen nil = no_texts
texts_lem out seen (cons v rest) = elim (Bool-cases (is_member seen v)) [
  | inl e ↦ rw e (texts_lem out (cons v seen) rest)
  | inr e ↦ rw e (a_text (texts_lem out (cons v seen) rest))
]

module _ (out : Outside) (f : Fields) where
  pub number-Fits : (v : Value) {w : Value} → finite_number out v ≡ ok w → Fits out f Kind.number w
  number-Fits (int z) h =
      let (w, _, done) = >>=-eq-ok (given_or raised (out.float_of_int z)) _ h in
      subst (Fits out f Kind.number) (ok_eq done) (a_number w)
  number-Fits (str s) h =
      let (w, _, done) = >>=-eq-ok (given_or number (out.float_of_text s)) _ h in
      subst (Fits out f Kind.number) (ok_eq done) (a_number w)
  number-Fits null h = cc
  number-Fits (bool b) h = cc
  number-Fits (list xs) h = cc
  number-Fits (dict m) h = cc

  pub flag-Fits : (v : Value) {w : Value} → checkbox_value v ≡ ok w → Fits out f Kind.checkbox w
  flag-Fits (bool b) h = subst (Fits out f Kind.checkbox) (ok_eq h) (a_flag b)
  flag-Fits (int (pos zero)) h = subst (Fits out f Kind.checkbox) (ok_eq h) (a_flag false)
  flag-Fits (int (pos (suc zero))) h = subst (Fits out f Kind.checkbox) (ok_eq h) (a_flag true)
  flag-Fits (int (pos (suc (suc n)))) h = cc
  flag-Fits (int (negsuc n)) h = cc
  flag-Fits null h = cc
  flag-Fits (str s) h = cc
  flag-Fits (list xs) h = cc
  flag-Fits (dict m) h = cc

  pub choice-Fits : (v : Value) {w : Value} → choice_value out f v ≡ ok w → Fits out f Kind.choice w
  choice-Fits v h =
      let (found, is, rest) = >>=-eq-ok (is_in v (options_of f)) _ h in
      let (in_list, done) = >>-eq-ok (raise_if (not found) choice) _ rest in
      let yes_found = raise_if-lets (not found) choice in_list in
      subst (Fits out f Kind.choice) (ok_eq done)
        (a_choice v (is ∙ ap (λ b. ok b) (not-false found yes_found)))

  pub choices-Fits :
      (v : Value) {w : Value} → choice_values out f v ≡ ok w → Fits out f Kind.choices w
  choices-Fits (list xs) h =
      let (found, _, rest) = >>=-eq-ok (all_in xs (options_of f)) _ h in
      let (_, more) = >>-eq-ok (raise_if (not found) choice) _ rest in
      let (_, done) = >>-eq-ok (raise_if (not (all_hashable xs)) raised) _ more in
      subst (Fits out f Kind.choices) (ok_eq done) (some_choices (texts_lem out nil xs))
  choices-Fits null h = cc
  choices-Fits (bool b) h = cc
  choices-Fits (int z) h = cc
  choices-Fits (str s) h = cc
  choices-Fits (dict m) h = cc

  pub link-Fits : (v : Value) {w : Value} → link_only v ≡ ok w → Fits out f Kind.link w
  link-Fits v h =
      let (s, is, done) = >>=-eq-ok (link_value v) _ h in
      subst (Fits out f Kind.link) (ok_eq done) (a_link s (link_lem v is))

  pub select-Fits : (v : Value) {w : Value} → select_value f v ≡ ok w → Fits out f Kind.select w
  select-Fits v h =
      let (s, is, rest) = >>=-eq-ok (link_value v) _ h in
      elim (Bool-cases (str_is "delivery_location" (get f "source"))) [
        | inl d ↦
            let (_, _, done) = >>=-eq-ok (delivery_location s) _ (rw d at rest) in
            subst (Fits out f Kind.select) (ok_eq done) (a_selection s (link_lem v is))
        | inr d ↦
            subst (Fits out f Kind.select) (ok_eq (rw d at rest)) (a_selection s (link_lem v is))
      ]

  pub time-Fits : (v : Value) {w : Value} → time_value out v ≡ ok w → Fits out f Kind.time w
  time-Fits (str s) h =
      let (is, same) = test_lets (is_time out s) (str s) time h in
      subst (Fits out f Kind.time) same (a_time s is)
  time-Fits null h = cc
  time-Fits (bool b) h = cc
  time-Fits (int z) h = cc
  time-Fits (list xs) h = cc
  time-Fits (dict m) h = cc

  pub file-Fits : (v : Value) {w : Value} → file_reference v ≡ ok w → Fits out f Kind.file w
  file-Fits (str s) h =
      let (is, same) = test_lets (is_file s) (str s) file h in
      subst (Fits out f Kind.file) same (a_file s is)
  file-Fits null h = cc
  file-Fits (bool b) h = cc
  file-Fits (int z) h = cc
  file-Fits (list xs) h = cc
  file-Fits (dict m) h = cc

  pub date-Fits : (v : Value) {w : Value} → date_value out v ≡ ok w → Fits out f Kind.date w
  date-Fits v h =
      let (s, is, done) = >>=-eq-ok (given_or date (out.iso_date (str_of out.python v))) _ h in
      subst (Fits out f Kind.date) (ok_eq done)
        (a_date s (str_of out.python v) (given_some date _ is))

  pub text-Fits : (v : Value) {w : Value} → filled_text out f v ≡ ok w → Fits out f Kind.text w
  text-Fits v h =
      let (s, is, rest) = >>=-eq-ok (checked_text out f v) _ h in
      let (filled, done) =
        >>-eq-ok (raise_if (truthy (get f "required") && (s == "")) required) _ rest in
      subst (Fits out f Kind.text) (ok_eq done) (a_text s (raise_if-lets _ required filled))
