-- ===== src/Form/Response/Typed.antt =====
-- The typing of responses: a judgment beside the normaliser, which it satisfies.
use frappe_erp_next.Prelude.{◌≤◌, String, Bool, true, false, ◌&&◌, ◌==◌, ◌≡◌, [], ◌∷◌, some}
use frappe_erp_next.Prelude.Int.{ℤ}
use frappe_erp_next.Prelude.Result.{ok}
use frappe_erp_next.Python.{
  Value, Items, Fields, null, bool, int, str, list, dict, nil, cons, end, field, get, truthy,
  str_of,
}
use frappe_erp_next.Form.Values.{Outside, is_file, is_time, is_in, options_of}
use frappe_erp_next.Form.Rows.{count_rows}
use frappe_erp_next.Form.Visible.{Definitions, definitions_from, Flags, shown}
use frappe_erp_next.Form.Response.{Kind, kind_of, is_auto}

-- A list of texts.
pub data AreTexts : Items → Type 0 where
  no_texts : AreTexts nil
  a_text : {s : String} {rest : Items} → AreTexts rest → AreTexts (cons (str s) rest)

module _ (out : Outside) where
  -- Rows that have an item and a positive quantity.
  pub data AreItems : Items → Type 0 where
    no_items : AreItems nil
    an_item :
        {c : String} {q : Value} {r : Fields} {rest : Items}
        → (c == "") ≡ false
        → out.is_positive q ≡ true
        → AreItems rest
        → AreItems (cons (dict (field "item_code" (str c) (field "qty" q r))) rest)

  mutual
    -- A value of a field's kind.
    pub data Fits : Fields → Kind → Value → Type 0 where
      a_number : {f : Fields} (z : ℤ) → Fits f Kind.number (int z)
      a_flag : {f : Fields} (b : Bool) → Fits f Kind.checkbox (bool b)
      a_choice :
          {f : Fields} (v : Value)
          → is_in v (options_of f) ≡ ok true
          → Fits f Kind.choice (str (str_of out.python v))
      some_choices : {f : Fields} {xs : Items} → AreTexts xs → Fits f Kind.choices (list xs)
      a_link : {f : Fields} (s : String) → (s == "") ≡ false → Fits f Kind.link (str s)
      a_selection : {f : Fields} (s : String) → (s == "") ≡ false → Fits f Kind.select (str s)
      a_time : {f : Fields} (s : String) → is_time out s ≡ true → Fits f Kind.time (str s)
      some_items : {f : Fields} {xs : Items} → AreItems xs → Fits f Kind.items (list xs)
      some_rows :
          {f : Fields} {columns xs : Items}
          → get f "columns" ≡ list columns
          → count_rows xs ≤ 100
          → AllTyped columns xs
          → Fits f Kind.table (list xs)
      a_file : {f : Fields} (s : String) → is_file s ≡ true → Fits f Kind.file (str s)
      a_date : {f : Fields} (s t : String) → out.iso_date t ≡ some s → Fits f Kind.date (str s)
      a_text :
          {f : Fields} (s : String)
          → (truthy (get f "required") && (s == "")) ≡ false
          → Fits f Kind.text (str s)

    -- Every row of a table is typed by its columns.
    pub data AllTyped : Items → Items → Type 0 where
      no_more : {columns : Items} → AllTyped columns nil
      more :
          {columns rest : Items} {r : Fields} {flags : Flags}
          → Typed flags (definitions_from out columns []) r
          → AllTyped columns rest
          → AllTyped columns (cons (dict r) rest)

    -- The values of the fields that are not computed by the server, in order; `null` is for a field
    -- that is not required, or that is hidden.
    pub data Typed : Flags → Definitions → Fields → Type 0 where
      no_fields : {flags : Flags} → Typed flags [] end
      computed :
          {flags : Flags} {k : String} {f : Fields} {ds : Definitions} {r : Fields}
          → is_auto f ≡ true
          → Typed flags ds r
          → Typed flags ((k, f) ∷ ds) r
      unset :
          {flags : Flags} {k : String} {f : Fields} {ds : Definitions} {r : Fields}
          → is_auto f ≡ false
          → (shown flags k && truthy (get f "required")) ≡ false
          → Typed flags ds r
          → Typed flags ((k, f) ∷ ds) (field k null r)
      set :
          {flags : Flags} {k : String} {f : Fields} {ds : Definitions} {v : Value} {r : Fields}
          → is_auto f ≡ false
          → Fits f (kind_of (get f "type")) v
          → Typed flags ds r
          → Typed flags ((k, f) ∷ ds) (field k v r)
