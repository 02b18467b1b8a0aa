-- ===== src/Prelude/Lists.antt =====
-- Lists: lengths over the native numbers, Boolean membership of texts, and searches by a test.
use Prim.Native.Nat.{ℕ, zero, suc, ◌+◌}
use Prim.Native.String.{String}
use mathlib.Core.Path.{◌≡◌, refl, subst}
use mathlib.Core.Logic.{◌⊎◌, inl, inr}
use mathlib.Core.Bool.{Bool, true, false, ◌&&◌, ◌||◌}
use mathlib.Core.Option.{Option, none, some}
use mathlib.Core.List.{List, [], ◌∷◌, ◌++◌, map}
use native.Mathlib.Omega.{arith}
use text.Mathlib.Text.{◌==◌}
use text.Mathlib.TextEquality.{eq_iff}
use text.Mathlib.TextPositions.{eq_refl}
use frappe_erp_next.Prelude.Tests.{if◌then◌else◌, Bool-cases}

-- Python's `x in xs` for a list or a set of texts.
abbrev pub contains : List String → String → Bool
contains [] a = false
contains (x ∷ xs) a = (x == a) || contains xs a

abbrev pub Has : List String → String → Type 0
Has xs a = contains xs a ≡ true

module _ {ℓ} {A : Type ℓ} where
  abbrev pub length : List A → ℕ
  length [] = 0
  length (x ∷ xs) = suc (length xs)

  abbrev pub is_empty : List A → Bool
  is_empty [] = true
  is_empty (_ ∷ _) = false

  abbrev pub all : (A → Bool) → List A → Bool
  all p [] = true
  all p (x ∷ xs) = p x && all p xs

  abbrev pub any : (A → Bool) → List A → Bool
  any p [] = false
  any p (x ∷ xs) = p x || any p xs

  -- A comprehension's `if`.
  abbrev pub select : (A → Bool) → List A → List A
  select p [] = []
  select p (x ∷ xs) = if p x then x ∷ select p xs else select p xs

  abbrev pub find : (A → Bool) → List A → Option A
  find p [] = none
  find p (x ∷ xs) = if p x then some x else find p xs

  abbrev pub take : ℕ → List A → List A
  take zero xs = []
  take (suc n) [] = []
  take (suc n) (x ∷ xs) = x ∷ take n xs

  abbrev pub All {κ} : (A → Type κ) → List A → Type κ
  All P [] = Unit
  All P (x ∷ xs) = P x × All P xs

  -- Membership as data: the position of the element.
  pub data In (a : A) : List A → Type ℓ where
    here : {xs : List A} → In a (a ∷ xs)
    there : {x : A} {xs : List A} → In a xs → In a (x ∷ xs)

  pub length-append : (xs ys : List A) → length (xs ++ ys) ≡ length xs + length ys
  length-append [] ys = omega arith
  length-append (x ∷ xs) ys = omega (arith, length-append xs ys)

  pub all-In : (p : A → Bool) (xs : List A) {a : A} → all p xs ≡ true → In a xs → p a ≡ true
  all-In p [] h m = elim m [ ]
  all-In p (x ∷ xs) h here = ground arith
  all-In p (x ∷ xs) h (there m) = all-In p xs (ground arith) m

  pub all_intro : (p : A → Bool) (xs : List A) → ((a : A) → In a xs → p a ≡ true) → all p xs ≡ true
  all_intro p [] h = refl
  all_intro p (x ∷ xs) h = ground (arith, h x here, all_intro p xs (λ a m. h a (there m)))

  pub any-In : (p : A → Bool) (xs : List A) {a : A} → In a xs → p a ≡ true → any p xs ≡ true
  any-In p [] m h = elim m [ ]
  any-In p (x ∷ xs) here h = ground arith
  any-In p (x ∷ xs) (there m) h = ground (arith, any-In p xs m h)

  pub In-select : (p : A → Bool) (xs : List A) {a : A} → In a xs → p a ≡ true → In a (select p xs)
  In-select p [] m h = elim m [ ]
  In-select p (x ∷ xs) here h = rw h here
  In-select p (x ∷ xs) (there m) h = elim (Bool-cases (p x)) [
    | inl e ↦ rw e (there (In-select p xs m h))
    | inr e ↦ rw e (In-select p xs m h)
  ]

  pub In-cons : {a x : A} {xs : List A} → In a (x ∷ xs) → (a ≡ x) ⊎ In a xs
  In-cons here = inl refl
  In-cons (there m) = inr m

  pub select-In : (p : A → Bool) (xs : List A) {a : A} → In a (select p xs) → In a xs × (p a ≡ true)
  select-In p [] m = elim m [ ]
  select-In p (x ∷ xs) {a} m = elim (Bool-cases (p x)) [
    | inl e ↦ elim (In-cons (rw e at m)) [
      | inl q ↦ (rw q here, rw q e)
      | inr k ↦ let r = select-In p xs k in (there r.0, r.1)
    ]
    | inr e ↦ let r = select-In p xs (rw e at m) in (there r.0, r.1)
  ]

  -- The elements that pass the test.
  pub any_witness :
      (p : A → Bool) (xs : List A) → any p xs ≡ true → (a : A) × In a xs × (p a ≡ true)
  any_witness p [] h = cc
  any_witness p (x ∷ xs) h = elim (Bool-cases (p x)) [
    | inl e ↦ (x, here, e)
    | inr e ↦ let (a, m, q) = any_witness p xs (ground arith) in (a, there m, q)
  ]

pub contains-append :
    (xs ys : List String) (a : String) → contains (xs ++ ys) a ≡ (contains xs a || contains ys a)
contains-append [] ys a = refl
contains-append (x ∷ xs) ys a = ground (arith, contains-append xs ys a)

pub contains-map {ℓ} :
    {A : Type ℓ} (f : A → String) (xs : List A) {a : A} → In a xs → Has (map f xs) (f a)
contains-map f [] m = elim m [ ]
contains-map f (x ∷ xs) here = rw eq_refl
contains-map f (x ∷ xs) (there m) = ground (arith, contains-map f xs m)

pub map_witness {ℓ} :
    {A : Type ℓ} (f : A → String) (xs : List A) (b : String)
    → Has (map f xs) b
    → (a : A) × In a xs × (f a ≡ b)
map_witness f [] b h = cc
map_witness f (x ∷ xs) b h = elim (Bool-cases (f x == b)) [
  | inl e ↦ (x, here, (eq_iff (f x) b).0 e)
  | inr e ↦ let (a, m, q) = map_witness f xs b (ground arith) in (a, there m, q)
]

-- `set(xs) == set(ys)`
abbrev pub same_set : List String → List String → Bool
same_set xs ys = all (contains ys) xs && all (contains xs) ys

pub all-Has : (ys xs : List String) (a : String) → all (contains ys) xs ≡ true → Has xs a → Has ys a
all-Has ys [] a h k = cc
all-Has ys (x ∷ xs) a h k = elim (Bool-cases (x == a)) [
  | inl e ↦ rw (← (eq_iff x a).0 e) (ground arith)
  | inr n ↦ all-Has ys xs a (ground arith) (ground arith)
]

pub all-Has_intro :
    (ys xs : List String) → ((a : String) → Has xs a → Has ys a) → all (contains ys) xs ≡ true
all-Has_intro ys [] h = refl
all-Has_intro ys (x ∷ xs) h =
    ground (arith, h x, eq_refl x, all-Has_intro ys xs (λ a k. h a (ground arith)))

pub select-all {ℓ} : {A : Type ℓ} (p : A → Bool) (xs : List A) → all p xs ≡ true → select p xs ≡ xs
select-all p [] h = refl
select-all p (x ∷ xs) h = ground (arith, select-all p xs)

pub contains-select :
    (p : String → Bool) (xs : List String) (a : String)
    → contains (select p xs) a ≡ (contains xs a && p a)
contains-select p [] a = refl
contains-select p (x ∷ xs) a = elim (Bool-cases (x == a)) [
  | inl e ↦ rw ((eq_iff x a).0 e) (ground (arith, contains-select p xs a, eq_refl a))
  | inr n ↦ ground (arith, contains-select p xs a)
]

pub length-select_absent {ℓ} :
    {A : Type ℓ} (p : A → Bool) (xs : List A) → find p xs ≡ none → length (select p xs) ≡ 0
length-select_absent p [] h = refl
length-select_absent p (x ∷ xs) h = elim (Bool-cases (p x)) [
  | inl e ↦ cc (rw e at h)
  | inr e ↦ rw e (length-select_absent p xs (rw e at h))
]

pub find_test {ℓ} :
    {A : Type ℓ} (p : A → Bool) (xs : List A) {a : A} → find p xs ≡ some a → p a ≡ true
find_test p [] h = cc
find_test {A = A} p (x ∷ xs) h = elim (Bool-cases (p x)) [
  | inl e ↦ subst (λ z. p z ≡ true) (some_eq (rw e at h)) e
  | inr e ↦ find_test p xs (rw e at h)
]
  where
    some_eq : {b c : A} → some b ≡ some c → b ≡ c
    some_eq q = cc

-- What a narrower test finds.
pub find_weaken {ℓ} :
    {A : Type ℓ} (p q : A → Bool) (xs : List A)
    → ((a : A) → q a ≡ true → p a ≡ true)
    → find p xs ≡ none
    → find q xs ≡ none
find_weaken p q [] w h = refl
find_weaken p q (x ∷ xs) w h = elim (Bool-cases (p x)) [
  | inl e ↦ cc (rw e at h)
  | inr e ↦ elim (Bool-cases (q x)) [
    | inl f ↦ cc (w x f)
    | inr f ↦ rw f (find_weaken p q xs w (rw e at h))
  ]
]

module _ (p : String → Bool) where
  pub any-none : (xs : List String) (a : String) → any p xs ≡ false → Has xs a → p a ≡ false
  any-none [] a h k = cc
  any-none (x ∷ xs) a h k = elim (Bool-cases (x == a)) [
    | inl e ↦ rw (← (eq_iff x a).0 e) (ground arith)
    | inr n ↦ any-none xs a (ground arith) (ground arith)
  ]

  pub any-none_intro :
      (xs : List String) → ((a : String) → Has xs a → p a ≡ false) → any p xs ≡ false
  any-none_intro [] h = refl
  any-none_intro (x ∷ xs) h =
      ground (arith, h x, eq_refl x, any-none_intro xs (λ a k. h a (ground arith)))
