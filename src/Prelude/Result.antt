-- ===== src/Prelude/Result.antt =====
-- The outcome of code that may raise: a value, or what was raised.
use mathlib.Core.Path.{◌≡◌, refl}
use mathlib.Core.Bool.{Bool, true, false}
use frappe_erp_next.Prelude.Tests.{if◌then◌else◌}
use mathlib.Core.List.{List, [], ◌∷◌}

pub data Result {ℓ} (E : Type 0) (A : Type ℓ) : Type ℓ where
  ok : A → Result E A
  err : E → Result E A

infixl 5 ◌>>=◌ ◌>>◌
abbrev pub ◌>>=◌ {ℓ κ} :
    {E : Type 0} {A : Type ℓ} {B : Type κ} → Result E A → (A → Result E B) → Result E B
ok a >>= f = f a
err e >>= f = err e

abbrev pub ◌>>◌ {ℓ} : {E : Type 0} {B : Type ℓ} → Result E (Unit {0}) → Result E B → Result E B
m >> k = m >>= λ _. k

-- `if test: raise e`
abbrev pub raise_if : {E : Type 0} → Bool → E → Result E (Unit {0})
raise_if true e = err e
raise_if false e = ok tt

-- A row of guards, `if test: raise e`, in order.
abbrev pub check_all : {E : Type 0} → List (Bool × E) → Result E (Unit {0})
check_all [] = ok tt
check_all ((b, e) ∷ rest) = raise_if b e >> check_all rest

abbrev pub AllPass : {E : Type 0} → List (Bool × E) → Type 0
AllPass [] = Unit {0}
AllPass ((b, e) ∷ rest) = (b ≡ false) × AllPass rest

pub check_all-AllPass :
    {E : Type 0} (tests : List (Bool × E)) {u : Unit {0}} → check_all tests ≡ ok u → AllPass tests
check_all-AllPass [] h = tt
check_all-AllPass ((false, e) ∷ rest) h = (refl, check_all-AllPass rest h)
check_all-AllPass ((true, e) ∷ rest) h = cc

-- What succeeds in sequence succeeded at its first step, and then at the rest.
pub >>=-eq-ok {ℓ κ} :
    {E : Type 0} {A : Type ℓ} {B : Type κ} (first : Result E A) (rest : A → Result E B) {result : B}
    → (first >>= rest) ≡ ok result
    → (value : A) × (first ≡ ok value) × (rest value ≡ ok result)
>>=-eq-ok (err raised) rest p = cc
>>=-eq-ok (ok value) rest p = (value, refl, p)

pub ok_eq {ℓ} : {E : Type 0} {A : Type ℓ} {a b : A} → ◌≡◌ {A = Result E A} (ok a) (ok b) → a ≡ b
ok_eq p = cc

-- What passes its guards goes on.
pub >>-eq-ok {ℓ} :
    {E : Type 0} {B : Type ℓ} (first : Result E (Unit {0})) (rest : Result E B) {result : B}
    → (first >> rest) ≡ ok result
    → (first ≡ ok tt) × (rest ≡ ok result)
>>-eq-ok (err raised) rest p = cc
>>-eq-ok (ok u) rest p = (refl, p)

-- A guard that lets pass has failed its test.
pub raise_if-lets : {E : Type 0} (b : Bool) (e : E) {u : Unit {0}} → raise_if b e ≡ ok u → b ≡ false
raise_if-lets false e h = refl
raise_if-lets true e h = cc

-- `if not test: raise e`, else a value
pub test_lets {ℓ} :
    {E : Type 0} {A : Type ℓ} (b : Bool) (a : A) (e : E) {r : A}
    → (if b then ok a else err e) ≡ ok r
    → (b ≡ true) × (a ≡ r)
test_lets true a e h = (refl, ok_eq h)
test_lets false a e h = cc
