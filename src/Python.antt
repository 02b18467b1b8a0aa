-- ===== src/Python.antt =====
-- The values of a decoded JSON document, as the Python code sees them: truth, `or`, `dict.get`,
-- `str(...)`, `str.strip` and `len`. What the program takes from Python and cannot be written out
-- here, Unicode case folding and the text of a container, is a field of `Python`.
pub mod Members
pub mod Equality
pub mod Lookup
pub mod Strip
use Prim.Native.Char.{code}
use Prim.Native.Nat.{ℕ, zero, suc}
use text.Mathlib.Text.{starts_with}
use frappe_erp_next.Prelude.{
  String, Bool, true, false, ◌&&◌, ◌||◌, Option, none, some, leb, eqb, ◌==◌, if◌then◌else◌,
}
use frappe_erp_next.Prelude.Int.{ℤ, pos, negsuc}

mutual
  pub data Value : Type 0 where
    null : Value
    bool : Bool → Value
    int : ℤ → Value
    str : String → Value
    list : Items → Value
    dict : Fields → Value

  pub data Items : Type 0 where
    nil : Items
    cons : Value → Items → Items

  pub data Fields : Type 0 where
    end : Fields
    field : String → Value → Fields → Fields

-- `bool(value)`
abbrev pub truthy : Value → Bool
truthy null = false
truthy (bool b) = b
truthy (int (pos zero)) = false
truthy (int (pos (suc _))) = true
truthy (int (negsuc _)) = true
truthy (str s) = if s == "" then false else true
truthy (list nil) = false
truthy (list (cons _ _)) = true
truthy (dict end) = false
truthy (dict (field _ _ _)) = true

-- `a or b`
infixr 30 ◌or◌
abbrev pub ◌or◌ : Value → Value → Value
a or b = if truthy a then a else b

-- `fields.get(key)`: a missing key gives `None`. A decoded document has each key once.
abbrev pub get : Fields → String → Value
get end k = null
get (field j v r) k = if j == k then v else get r k

-- `key in fields`
abbrev pub has_key : Fields → String → Bool
has_key end k = false
has_key (field j v r) k = (j == k) || has_key r k

-- `dict(fields)[key] = value`: a present key keeps its place.
abbrev pub put : String → Value → Fields → Fields
put k v end = field k v end
put k v (field j w r) = if j == k then field j v r else field j w (put k v r)

-- `first.update(second)`
abbrev pub update : Fields → Fields → Fields
update m end = m
update m (field j v r) = update (put j v m) r

pub record Python : Type 0 where
  pub casefold : String → String
  pub upper : String → String
  -- `str` of a number or of a container
  pub repr : Value → String
  -- `int(text)`, `none` where it raises
  pub parse_int : String → Option ℤ
  -- `Decimal(text)` does not raise
  pub is_decimal : String → Bool
  -- `Decimal(a) < Decimal(b)` of two texts that it accepts; `none` where the comparison signals
  pub decimal_lt : String → String → Option Bool

-- `str(value)`
abbrev pub str_of : Python → Value → String
str_of py null = "None"
str_of py (bool true) = "True"
str_of py (bool false) = "False"
str_of py (str s) = s
str_of py v = py.repr v

-- `fields.get(key, default)`
abbrev pub get_or : Fields → String → Value → Value
get_or m k d = if has_key m k then get m k else d

-- `part in text`, both texts
abbrev pub is_part : String → String → Bool
is_part t String.[] = t == ""
is_part t (String.◌∷◌ c s) = starts_with (String.◌∷◌ c s) t || is_part t s

-- `int(value)`, `none` where it raises
abbrev pub int_of : Python → Value → Option ℤ
int_of py (int z) = some z
int_of py (bool true) = some (pos 1)
int_of py (bool false) = some (pos 0)
int_of py (str s) = py.parse_int s
int_of py _ = none

-- `value == text`
abbrev pub str_is : String → Value → Bool
str_is t (str s) = s == t
str_is t _ = false

-- `fields.get(value)` for a key that is itself a decoded value
abbrev pub get_by : Fields → Value → Value
get_by m (str k) = get m k
get_by m _ = null

abbrev pub has_key_by : Fields → Value → Bool
has_key_by m (str k) = has_key m k
has_key_by m _ = false

-- The characters that `str.isspace` accepts.
is_space : ℕ → Bool
is_space c =
    (leb 9 c && leb c 13)
    || (leb 28 c && leb c 32)
    || eqb c 133
    || eqb c 160
    || eqb c 5760
    || (leb 8192 c && leb c 8202)
    || eqb c 8232
    || eqb c 8233
    || eqb c 8239
    || eqb c 8287
    || eqb c 12288

pub lstrip : String → String
unfolding is_space
lstrip String.[] = ""
lstrip (String.◌∷◌ c s) = if is_space (code c) then lstrip s else String.◌∷◌ c s

pub rstrip : String → String
unfolding is_space
rstrip String.[] = ""
rstrip (String.◌∷◌ c s) =
    let rest = rstrip s in if rest == "" && is_space (code c) then "" else String.◌∷◌ c rest

-- `text.strip()`
unfoldable pub strip : String → String
unfolding lstrip rstrip
strip s = rstrip (lstrip s)

-- `not text.strip()`
abbrev pub is_blank : String → Bool
is_blank s = strip s == ""

-- `len(text)`: the number of code points
abbrev pub len : String → ℕ
len String.[] = 0
len (String.◌∷◌ _ s) = suc (len s)

-- `text[:n]`
abbrev pub clip : ℕ → String → String
clip zero s = ""
clip (suc n) String.[] = ""
clip (suc n) (String.◌∷◌ c s) = String.◌∷◌ c (clip n s)
