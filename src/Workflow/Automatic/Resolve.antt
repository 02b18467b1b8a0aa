-- ===== src/Workflow/Automatic/Resolve.antt =====
-- The value of a source: `resolve` of asoud_erp/services/automatic_action_policy.py.
use frappe_erp_next.Prelude.{
  String, ◌≡◌, inl, inr, Bool, true, false, ◌&&◌, Option, none, some, List, [], ◌∷◌, ◌==◌,
  if◌then◌else◌, Bool-cases, Option-cases,
}
use frappe_erp_next.Prelude.Result.{Result, ok, err, ◌>>=◌, ◌>>◌, raise_if, >>=-eq-ok}
use frappe_erp_next.Python.{Value, Fields, null, str, list, nil, get_by, str_is, strip}
use frappe_erp_next.Workflow.Automatic.{
  PolicyError, invalid, Entry, SourceKind, current, stage, constant, system, Transform, unchanged,
  trim, round2, EmptyPolicy, stop, skip,
}

-- `context`: the current record, the outputs of the stages that completed, and the system's values.
pub record Context : Type 0 where
  pub current_values : Fields
  pub stages : List (String × Fields)
  pub system_values : Fields

abbrev pub stage_values : String → List (String × Fields) → Result PolicyError Fields
stage_values name [] = err invalid
stage_values name ((n, m) ∷ rest) = if n == name then ok m else stage_values name rest

-- The value that the source names.
abbrev pub read : Entry → Context → SourceKind → Result PolicyError Value
read e c constant = ok e.value
read e c stage = do m ← stage_values e.stage_name c.stages; ok (get_by m e.value)
read e c current = ok (get_by c.current_values e.value)
read e c system = ok (get_by c.system_values e.value)

-- `value is None or value == "" or value == []`
abbrev pub is_missing : Value → Bool
is_missing null = true
is_missing (str s) = s == ""
is_missing (list nil) = true
is_missing _ = false

abbrev pub trimmed_value : Transform → Value → Result PolicyError Value
trimmed_value trim (str s) = ok (str (strip s))
trimmed_value trim _ = err invalid
trimmed_value _ v = ok v

abbrev pub or_invalid : Option Value → Result PolicyError Value
or_invalid none = err invalid
or_invalid (some v) = ok v

-- `round(number(value), 2)` of the floats: the number, or none where it raises.
abbrev pub rounded : (Value → Option Value) → Transform → Value → Result PolicyError Value
rounded round_number round2 v = or_invalid (round_number v)
rounded round_number _ v = ok v

abbrev pub is_stop : EmptyPolicy → Bool
is_stop stop = true
is_stop skip = false

abbrev pub transformed : (Value → Option Value) → Entry → Value → Result PolicyError (Option Value)
transformed round_number e v = do
  first ← trimmed_value e.transform v
  result ← rounded round_number e.transform first
  raise_if (str_is "" result && is_stop e.empty) invalid
  ok (some result)

-- `resolve(entry, context)`; `none` is `None`
unfoldable pub resolve :
    (Value → Option Value) → Entry → Context → Result PolicyError (Option Value)
resolve round_number e c = do
  v ← read e c e.kind
  if is_missing v
      then (if is_stop e.empty then err invalid else ok none)
      else transformed round_number e v

value_eq : {x y : Value} → ◌≡◌ {A = Result PolicyError Value} (ok x) (ok y) → x ≡ y
value_eq q = cc

module _ (round_number : Value → Option Value) where
  -- What is left of a value that is there.
  kept :
      (t : Transform) (v : Value) {first result : Value}
      → ((v n : Value) → round_number v ≡ some n → is_missing n ≡ false)
      → is_missing v ≡ false
      → trimmed_value t v ≡ ok first
      → rounded round_number t first ≡ ok result
      → str_is "" result ≡ false
      → is_missing result ≡ false
  kept unchanged v law m p q n =
      let e : v ≡ _ = value_eq p in let e' = value_eq q in rw (← e', ← e) m
  kept trim (str s) law m p q n =
      let e = value_eq p in let e' = value_eq q in rw (← e', ← e) (rw (← e', ← e) at n)
  kept trim v law m p q n = cc
  kept round2 v {first} law m p q n = elim (Option-cases (round_number first)) [
    | inl none_given ↦ cc (rw none_given at q)
    | inr (r, given) ↦ let e = value_eq (rw given at q) in rw (← e) (law first r given)
  ]

-- A source whose empty values are errors gives a value, which is not empty, as rounding is to give
-- a number.
pub resolve-is_missing :
    (round_number : Value → Option Value) (e : Entry) (c : Context) {result : Option Value}
    → ((v n : Value) → round_number v ≡ some n → is_missing n ≡ false)
    → e.empty ≡ stop
    → resolve round_number e c ≡ ok result
    → (v : Value) × (result ≡ some v) × (is_missing v ≡ false)
unfolding resolve
resolve-is_missing round_number e c law p h =
    let (v, q, h1) = >>=-eq-ok (read e c e.kind) _ h in
    elim (Bool-cases (is_missing v)) [
      | inl m ↦ cc (rw (m, p) at h1)
      | inr m ↦
          let (first, r, h2) = >>=-eq-ok (trimmed_value e.transform v) _ (rw m at h1) in
          let (done, s, h3) = >>=-eq-ok (rounded round_number e.transform first) _ h2 in
          let (u, t, h4) = >>=-eq-ok (raise_if (str_is "" done && is_stop e.empty) invalid) _ h3 in
          (done, some_eq h4, kept round_number e.transform v law m r s (not_blank done t))
    ]
  where
    some_eq :
        {x y : Option Value} → ◌≡◌ {A = Result PolicyError (Option Value)} (ok x) (ok y) → y ≡ x
    some_eq q = cc

    not_blank :
        (done : Value) {u : Unit {0}}
        → raise_if (str_is "" done && is_stop e.empty) invalid ≡ ok u
        → str_is "" done ≡ false
    not_blank done t = elim (Bool-cases (str_is "" done)) [
      | inl b ↦ cc (rw (b, p) at t)
      | inr n ↦ n
    ]
