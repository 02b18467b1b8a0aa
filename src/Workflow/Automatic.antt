-- ===== src/Workflow/Automatic.antt =====
-- asoud_erp/services/automatic_action_policy.py: the settings of version-2 automatic actions, and the
-- values that they read. What raises is `invalid`.
pub mod Action
pub mod Formula
pub mod Retry
pub mod Resolve
pub mod Receipt
mod Tests
use Prim.Native.Char.{code}
use frappe_erp_next.Prelude.{
  ℕ, suc, String, Bool, true, false, not, ◌&&◌, ◌||◌, Option, none, some, List, [], ◌∷◌, ◌==◌, eqb,
  ltb, leb, if◌then◌else◌, contains, all, length,
}
use frappe_erp_next.Prelude.Int.{pos}
use frappe_erp_next.Prelude.Result.{Result, ok, err, ◌>>=◌, ◌>>◌, raise_if}
use frappe_erp_next.Python.{
  Value, Items, Fields, null, bool, int, str, list, dict, nil, cons, end, field, get, get_or,
  str_is, strip, is_blank, len, truthy,
}

pub data PolicyError : Type 0 where
  invalid : PolicyError

-- `bounded_int(value, low, high, label)`, of bounds that are not negative
abbrev pub bounded_int : Value → ℕ → ℕ → Result PolicyError ℕ
bounded_int (int (pos n)) low high = if leb low n && leb n high then ok n else err invalid
bounded_int _ low high = err invalid

abbrev pub is_lower : ℕ → Bool
is_lower c = leb 97 c && leb c 122

-- `[a-z0-9_]`
abbrev pub is_key_char : ℕ → Bool
is_key_char c = is_lower c || (leb 48 c && leb c 57) || eqb c 95

abbrev pub key_chars : String → Bool
key_chars String.[] = true
key_chars (String.◌∷◌ c s) = is_key_char (code c) && key_chars s

-- `KEY.fullmatch(value)`
abbrev pub is_key_text : String → Bool
is_key_text String.[] = false
is_key_text (String.◌∷◌ c s) = is_lower (code c) && key_chars s && leb (len s) 79

-- `identifier(value)`
abbrev pub identifier : Value → Result PolicyError String
identifier (str s) = if is_key_text s then ok s else err invalid
identifier _ = err invalid

-- `text(value, label, limit)`
abbrev pub text : ℕ → Value → Result PolicyError String
text limit (str s) = if is_blank s || ltb limit (len s) then err invalid else ok (strip s)
text limit _ = err invalid

-- `not set(raw) - names`
abbrev pub only_keys : List String → Fields → Bool
only_keys names end = true
only_keys names (field k v r) = contains names k && only_keys names r

abbrev pub dict_of : Value → Result PolicyError Fields
dict_of (dict m) = ok m
dict_of _ = err invalid

pub data SourceKind : Type 0 where
  current stage constant system : SourceKind

pub data Transform : Type 0 where
  unchanged trim round2 : Transform

pub data EmptyPolicy : Type 0 where
  stop skip : EmptyPolicy

-- The dictionary that `source` returns; a stage is set for the kind `stage` only.
pub record Entry : Type 0 where
  pub kind : SourceKind
  pub value : Value
  pub transform : Transform
  pub empty : EmptyPolicy
  pub stage_name : String

abbrev pub source_kind : Value → Result PolicyError SourceKind
source_kind v =
    if str_is "current" v
    then ok current
    else if str_is "stage" v
    then ok stage
    else if str_is "constant" v
    then ok constant
    else if str_is "system" v
    then ok system
    else err invalid

abbrev pub transform_of : Value → Result PolicyError Transform
transform_of v =
    if str_is "none" v
    then ok unchanged
    else if str_is "trim" v
    then ok trim
    else if str_is "round2" v
    then ok round2
    else err invalid

abbrev pub empty_of : Value → Result PolicyError EmptyPolicy
empty_of v = if str_is "error" v then ok stop else if str_is "skip" v then ok skip else err invalid

abbrev pub is_scalar : Value → Bool
is_scalar (str s) = leb (len s) 2000
is_scalar (int _) = true
is_scalar (bool _) = true
is_scalar _ = false

abbrev pub system_fields : List String
system_fields = "today" ∷ "now" ∷ "company" ∷ "initiator" ∷ []

-- What the value of a source may be.
abbrev pub check_value : SourceKind → Value → Result PolicyError (Unit {0})
check_value constant v = raise_if (not (is_scalar v)) invalid
check_value system v = do name ← identifier v; raise_if (not (contains system_fields name)) invalid
check_value kind v = do name ← identifier v; ok tt

abbrev pub source_stage : SourceKind → Value → Result PolicyError String
source_stage stage v = text 140 v
source_stage kind v = if truthy v then err invalid else ok ""

-- `source(raw)`
abbrev pub source : Value → Result PolicyError Entry
source raw = do
  m ← dict_of raw
  raise_if (not (only_keys ("source" ∷ "value" ∷ "stage" ∷ "transform" ∷ "empty" ∷ []) m)) invalid
  kind ← source_kind (get m "source")
  transform ← transform_of (get_or m "transform" (str "none"))
  empty ← empty_of (get_or m "empty" (str "error"))
  check_value kind (get m "value")
  stage_name ← source_stage kind (get m "stage")
  ok (record {
    kind = kind;
    value = get m "value";
    transform = transform;
    empty = empty;
    stage_name = stage_name;
  })

-- The fields of a mapping with their sources, in order.
abbrev pub entries_of : Fields → Result PolicyError (List (String × Entry))
entries_of end = ok []
entries_of (field k v r) = do
  name ← identifier (str k)
  entry ← source v
  rest ← entries_of r
  ok ((name, entry) ∷ rest)

abbrev pub count_keys : Fields → ℕ
count_keys end = 0
count_keys (field k v r) = suc (count_keys r)

-- `mappings(raw)`
abbrev pub mappings : Value → Result PolicyError (List (String × Entry))
mappings raw = do
  m ← dict_of raw
  raise_if (not (leb 1 (count_keys m) && leb (count_keys m) 30)) invalid
  entries_of m

pub data Target : Type 0 where
  current_record : Target
  stage_output : String → Target

-- `target(raw)`
abbrev pub target_from : Fields → Result PolicyError Target
target_from m =
    if str_is "current" (get m "source") && not (truthy (get m "stage"))
    then ok current_record
    else if str_is "stage" (get m "source")
    then (do name ← text 140 (get m "stage"); ok (stage_output name))
    else err invalid

abbrev pub target : Value → Result PolicyError Target
target raw = do
  m ← dict_of raw
  raise_if (not (only_keys ("source" ∷ "stage" ∷ []) m)) invalid
  target_from m
