-- ===== src/Form/Response/Sound.antt =====
-- What the normaliser accepts is typed.
use frappe_erp_next.Prelude.{
  ℕ, zero, suc, String, Bool, true, false, ◌&&◌, ◌≡◌, refl, subst, [], ◌∷◌, if◌then◌else◌,
  Bool-cases, inl, inr,
}
use frappe_erp_next.Prelude.Result.{Result, ok, raise_if, >>=-eq-ok, >>-eq-ok, ok_eq, raise_if-lets}
use frappe_erp_next.Python.{
  Value, Items, Fields, null, bool, int, str, list, dict, field, get, truthy,
}
use frappe_erp_next.Form.Values.{
  Outside, ResponseError, required, raised, auto_value, unknown_field,
}
use frappe_erp_next.Form.Visible.{Definitions, definitions_from, Flags, shown, visibility}
use frappe_erp_next.Form.Response.{
  Kind, kind_of, value_of, shown_value, field_values, is_auto, is_empty, normalize_with,
  normalize_form_response,
}
use frappe_erp_next.Form.Response.Typed.{Fits, Typed, no_fields, computed, unset, set}
use frappe_erp_next.Form.Response.Fits.{
  number-Fits, flag-Fits, choice-Fits, choices-Fits, link-Fits, select-Fits, time-Fits, file-Fits,
  date-Fits, text-Fits,
}
use frappe_erp_next.Form.Response.Tables.{items-Fits, table-Fits, TypesRows}

module _ (out : Outside) (nested : Value → Value → Result ResponseError Fields)
    (types : TypesRows out nested) where
  value_of-Fits :
      (f : Fields) (k : Kind) (v : Value) {w : Value}
      → value_of nested out f k v ≡ ok w
      → Fits out f k w
  value_of-Fits f Kind.number v h = number-Fits out f v h
  value_of-Fits f Kind.checkbox v h = flag-Fits out f v h
  value_of-Fits f Kind.choice v h = choice-Fits out f v h
  value_of-Fits f Kind.choices v h = choices-Fits out f v h
  value_of-Fits f Kind.link v h = link-Fits out f v h
  value_of-Fits f Kind.select v h = select-Fits out f v h
  value_of-Fits f Kind.time v h = time-Fits out f v h
  value_of-Fits f Kind.items v h = items-Fits out f v h
  value_of-Fits f Kind.table v h = table-Fits out nested types f v h
  value_of-Fits f Kind.file v h = file-Fits out f v h
  value_of-Fits f Kind.date v h = date-Fits out f v h
  value_of-Fits f Kind.text v h = text-Fits out f v h

  -- The value of one field, before those of the others.
  entry-Typed :
      (flags : Flags) (k : String) (f : Fields) (ds : Definitions) (r : Fields) (v : Value)
      {w : Value}
      → is_auto f ≡ false
      → (if shown flags k then shown_value nested out f v else ok null) ≡ ok w
      → Typed out flags ds r
      → Typed out flags ((k, f) ∷ ds) (field k w r)
  entry-Typed flags k f ds r v {w} auto h rest = elim (Bool-cases (shown flags k)) [
    | inr hidden ↦
        subst (λ w. Typed out flags ((k, f) ∷ ds) (field k w r)) (ok_eq (rw hidden at h))
          (unset auto (rw hidden refl) rest)
    | inl visible ↦
        let (filled, some_value) =
          >>-eq-ok (raise_if (truthy (get f "required") && is_empty v) required) _
            (rw visible at h) in
        elim (Bool-cases (is_empty v)) [
          | inl e ↦
              subst (λ w. Typed out flags ((k, f) ∷ ds) (field k w r)) (ok_eq (rw e at some_value))
                (unset auto
                  (rw visible (
                    optional (truthy (get f "required")) (is_empty v) e
                      (raise_if-lets _ required filled)))
                  rest)
          | inr e ↦
              let (_, given_or) =
                >>-eq-ok (raise_if _ raised) (value_of nested out f (kind_of (get f "type")) v)
                  (rw e at some_value) in
              set auto (value_of-Fits f (kind_of (get f "type")) v given_or) rest
        ]
  ]
    where
      optional : (a b : Bool) → b ≡ true → (a && b) ≡ false → a ≡ false
      optional false b e h = refl
      optional true b e h = cc

  field_values-Typed :
      (flags : Flags) (raw : Fields) (ds : Definitions) {r : Fields}
      → field_values nested out flags raw ds ≡ ok r
      → Typed out flags ds r
  field_values-Typed flags raw [] h = subst (Typed out flags []) (ok_eq h) no_fields
  field_values-Typed flags raw ((k, f) ∷ ds) h = elim (Bool-cases (is_auto f)) [
    | inl a ↦ computed a (field_values-Typed flags raw ds (rw a at h))
    | inr n ↦
        let (v, is, more) =
          >>=-eq-ok (if shown flags k then shown_value nested out f (get raw k) else ok null) _
            (rw n at h) in
        let (others, are, done) = >>=-eq-ok (field_values nested out flags raw ds) _ more in
        subst (Typed out flags ((k, f) ∷ ds)) (ok_eq done)
          (entry-Typed flags k f ds others (get raw k) n is (field_values-Typed flags raw ds are))
  ]

-- The visibility that types a response is that of the response that came in.
abbrev pub TypedBy : Outside → Items → Fields → Fields → Type 0
TypedBy out fields raw result =
    (flags : Flags) × (visibility (definitions_from out fields []) raw ≡ ok flags)
    × Typed out flags (definitions_from out fields []) result

normalize_with-TypedBy :
    (out : Outside) (nested : Value → Value → Result ResponseError Fields)
    → TypesRows out nested
    → (allow_auto : Bool) (fields : Items) (raw : Fields) {r : Fields}
    → normalize_with nested out allow_auto (list fields) (dict raw) ≡ ok r
    → TypedBy out fields raw r
normalize_with-TypedBy out nested types allow_auto fields raw h =
    let ds = definitions_from out fields [] in
    let (_, h1) = >>-eq-ok (raise_if _ unknown_field) _ h in
    let (_, h2) = >>-eq-ok (raise_if _ auto_value) _ h1 in
    let (flags, is, done) =
      >>=-eq-ok (visibility ds raw) (λ flags. field_values nested out flags raw ds) h2 in
    (flags, is, field_values-Typed out nested types flags raw ds done)

normalize_form_response-TypesRows :
    (n : ℕ) (out : Outside) → TypesRows out (normalize_form_response n out false)
unfolding normalize_form_response
normalize_form_response-TypesRows zero out columns row r h = cc
normalize_form_response-TypesRows (suc n) out columns (dict raw) r h =
    let (flags, _, typed) =
      normalize_with-TypedBy out (normalize_form_response n out false)
        (normalize_form_response-TypesRows n out) false columns raw h in
    (flags, typed)
normalize_form_response-TypesRows (suc n) out columns null r h = cc
normalize_form_response-TypesRows (suc n) out columns (bool b) r h = cc
normalize_form_response-TypesRows (suc n) out columns (int z) r h = cc
normalize_form_response-TypesRows (suc n) out columns (str s) r h = cc
normalize_form_response-TypesRows (suc n) out columns (list xs) r h = cc

-- A response that is accepted has, for each field that the server does not compute, in order, a
-- value of the field's type: `null` only where the field is hidden or not required, tables typed
-- by their columns; the fields that the response itself shows are visible.
pub normalize_form_response-TypedBy :
    (n : ℕ) (out : Outside) (allow_auto : Bool) (fields : Items) (raw : Fields) {result : Fields}
    → normalize_form_response n out allow_auto (list fields) (dict raw) ≡ ok result
    → TypedBy out fields raw result
unfolding normalize_form_response
normalize_form_response-TypedBy zero out allow_auto fields raw h = cc
normalize_form_response-TypedBy (suc n) out allow_auto fields raw h =
    normalize_with-TypedBy out (normalize_form_response n out false)
      (normalize_form_response-TypesRows n out) allow_auto fields raw h
