-- ===== src/Base/Lists.antt =====
-- Lists measured by native numbers, Boolean filters, and the predicate that holds of every element.
use Prim.Native.Nat.{ℕ, zero, suc, ◌+◌, ◌≤◌, min}
use mathlib.Core.Path.{◌≡◌, sym, subst}
use mathlib.Core.Logic.{inl, inr}
use mathlib.Core.Bool.{Bool, true, false, not}
use mathlib.Core.Option.{Option, none, some}
use mathlib.Core.List.{List, [], ◌∷◌, ◌++◌, map, Perm, perm_middle}
use mathlib.Core.List.Perm
use native.Mathlib.Omega.{arith}
use package.splatoon.Base.Tests.{if◌then◌else◌, Bool-cases}

module _ {ℓ} {A : Type ℓ} where
  abbrev pub length : List A → ℕ
  length [] = 0
  length (x ∷ xs) = suc (length xs)

  abbrev pub get_elem? : List A → ℕ → Option A
  get_elem? [] i = none
  get_elem? (x ∷ xs) zero = some x
  get_elem? (x ∷ xs) (suc i) = get_elem? xs i

  abbrev pub get_or : List A → ℕ → A → A
  get_or [] i d = d
  get_or (x ∷ xs) zero d = x
  get_or (x ∷ xs) (suc i) d = get_or xs i d

  -- A write out of bounds changes nothing.
  abbrev pub set : List A → ℕ → A → List A
  set [] i v = []
  set (x ∷ xs) zero v = v ∷ xs
  set (x ∷ xs) (suc i) v = x ∷ set xs i v

  abbrev pub take : ℕ → List A → List A
  take zero xs = []
  take (suc n) [] = []
  take (suc n) (x ∷ xs) = x ∷ take n xs

  abbrev pub drop : ℕ → List A → List A
  drop zero xs = xs
  drop (suc n) [] = []
  drop (suc n) (x ∷ xs) = drop n xs

  -- The elements that pass a test, in order.
  abbrev pub keep : (A → Bool) → List A → List A
  keep p [] = []
  keep p (x ∷ xs) = let rest = keep p xs in if p x then x ∷ rest else rest

  abbrev pub any : (A → Bool) → List A → Bool
  any p [] = false
  any p (x ∷ xs) = if p x then true else any p xs

  pub length-append : (xs ys : List A) → length (xs ++ ys) ≡ length xs + length ys
  length-append [] ys = omega arith
  length-append (x ∷ xs) ys = omega (arith, length-append xs ys)

  pub length-take : (n : ℕ) (xs : List A) → length (take n xs) ≡ min n (length xs)
  length-take zero xs = omega arith
  length-take (suc n) [] = omega arith
  length-take (suc n) (x ∷ xs) = omega (arith, length-take n xs)

  pub length-keep-le : (p : A → Bool) (xs : List A) → length (keep p xs) ≤ length xs
  length-keep-le p [] = omega arith
  length-keep-le p (x ∷ xs) = ground (arith, length-keep-le p xs)

  -- A test splits a list in two.
  pub keep-perm : (p : A → Bool) (xs : List A) → Perm (keep p xs ++ keep (λ x. not (p x)) xs) xs
  keep-perm p [] = Perm.nil
  keep-perm p (x ∷ xs) = elim (Bool-cases (p x)) [
    | inl e ↦ rw (e, keep) (Perm.cons x (keep-perm p xs))
    | inr e ↦ rw (e, keep) (Perm.trans (perm_middle _ _) (Perm.cons x (keep-perm p xs)))
  ]

abbrev pub All {ℓ κ} : {A : Type ℓ} → (A → Type κ) → List A → Type κ
All P [] = Unit
All P (x ∷ xs) = P x × All P xs

module _ {ℓ κ} {A : Type ℓ} (P : A → Type κ) where
  pub All-append : (xs ys : List A) → All P xs → All P ys → All P (xs ++ ys)
  All-append [] ys hx hy = hy
  All-append (x ∷ xs) ys hx hy = (hx.0, All-append xs ys hx.1 hy)

  pub All-take : (n : ℕ) (xs : List A) → All P xs → All P (take n xs)
  All-take zero xs h = tt
  All-take (suc n) [] h = tt
  All-take (suc n) (x ∷ xs) h = (h.0, All-take n xs h.1)

  pub All-keep : (p : A → Bool) (xs : List A) → All P xs → All P (keep p xs)
  All-keep p [] h = tt
  All-keep p (x ∷ xs) h = elim (Bool-cases (p x)) [
    | inl e ↦ rw (e, keep) (h.0, All-keep p xs h.1)
    | inr e ↦ rw (e, keep) (All-keep p xs h.1)
  ]

pub All-map {ℓ κ} :
    {A : Type ℓ} (P Q : A → Type κ) (f : (x : A) → P x → Q x) (xs : List A) → All P xs → All Q xs
All-map P Q f [] h = tt
All-map P Q f (x ∷ xs) h = (f x h.0, All-map P Q f xs h.1)

-- Every element is related to every later one.
abbrev pub AllPairs {ℓ κ} : {A : Type ℓ} → (A → A → Type κ) → List A → Type κ
AllPairs R [] = Unit
AllPairs R (x ∷ xs) = All (R x) xs × AllPairs R xs

-- Both predicates at once.
pub All-zip {ℓ κ} :
    {A : Type ℓ} (P Q : A → Type κ) (xs : List A) → All P xs → All Q xs → All (λ x. P x × Q x) xs
All-zip P Q [] h k = tt
All-zip P Q (x ∷ xs) h k = ((h.0, k.0), All-zip P Q xs h.1 k.1)

pub AllPairs-keep {ℓ κ} :
    {A : Type ℓ} (R : A → A → Type κ) (p : A → Bool) (xs : List A)
    → AllPairs R xs
    → AllPairs R (keep p xs)
AllPairs-keep R p [] h = tt
AllPairs-keep R p (x ∷ xs) h = elim (Bool-cases (p x)) [
  | inl e ↦ rw (e, keep) (All-keep (R x) p xs h.0, AllPairs-keep R p xs h.1)
  | inr e ↦ rw (e, keep) (AllPairs-keep R p xs h.1)
]

module _ {ℓ κ} {A : Type ℓ} (R : A → A → Type κ) where
  pub AllPairs-take : (n : ℕ) (xs : List A) → AllPairs R xs → AllPairs R (take n xs)
  AllPairs-take zero xs h = tt
  AllPairs-take (suc n) [] h = tt
  AllPairs-take (suc n) (x ∷ xs) h = (All-take (R x) n xs h.0, AllPairs-take n xs h.1)

  pub AllPairs-append :
      (xs ys : List A)
      → AllPairs R xs
      → AllPairs R ys
      → All (λ x. All (R x) ys) xs
      → AllPairs R (xs ++ ys)
  AllPairs-append [] ys hx hy h = hy
  AllPairs-append (x ∷ xs) ys hx hy h =
      (All-append (R x) xs ys hx.0 h.0, AllPairs-append xs ys hx.1 hy h.1)

  -- Two tests that no element passes both select elements that stand apart in the list.
  pub AllPairs-cross :
      (p q : A → Bool)
      → ((x : A) → p x ≡ true → q x ≡ false)
      → ((x y : A) → R x y → R y x)
      → (xs : List A) → AllPairs R xs
      → All (λ w. All (R w) (keep q xs)) (keep p xs)
  AllPairs-cross p q d s [] h = tt
  AllPairs-cross p q d s (x ∷ xs) h = elim (Bool-cases (p x)) [
    | inl e ↦
        across (x ∷ keep p xs) (keep q xs) (rw (e, keep)) (rw (d x e, keep))
          (All-keep (R x) q xs h.0, AllPairs-cross p q d s xs h.1)
    | inr e ↦ elim (Bool-cases (q x)) [
      | inl f ↦ across (keep p xs) (x ∷ keep q xs) (rw (e, keep)) (rw (f, keep)) (
          All-zip (λ w. R w x) (λ w. All (R w) (keep q xs)) (keep p xs)
            (All-map (R x) (λ w. R w x) (s x) (keep p xs) (All-keep (R x) p xs h.0))
            (AllPairs-cross p q d s xs h.1))
      | inr f ↦
          across (keep p xs) (keep q xs) (rw (e, keep)) (rw (f, keep))
            (AllPairs-cross p q d s xs h.1)
    ]
  ]
    where
      across :
          (ps qs : List A)
          → keep p (x ∷ xs) ≡ ps
          → keep q (x ∷ xs) ≡ qs
          → All (λ w. All (R w) qs) ps
          → All (λ w. All (R w) (keep q (x ∷ xs))) (keep p (x ∷ xs))
      across ps qs ep eq g =
          subst (λ l. All (λ w. All (R w) (keep q (x ∷ xs))) l) (sym ep)
            (subst (λ l. All (λ w. All (R w) l) ps) (sym eq) g)

pub All-always {ℓ κ} : {A : Type ℓ} (P : A → Type κ) (xs : List A) → ((x : A) → P x) → All P xs
All-always P [] h = tt
All-always P (x ∷ xs) h = (h x, All-always P xs h)

pub All-of-map {ℓ κ μ} :
    {A : Type ℓ} {B : Type κ} (P : B → Type μ) (f : A → B) (xs : List A)
    → All (λ x. P (f x)) xs
    → All P (map f xs)
All-of-map P f [] h = tt
All-of-map P f (x ∷ xs) h = (h.0, All-of-map P f xs h.1)

-- Two quantifiers over lists exchange.
pub All-swap {ℓ κ} :
    {A B : Type ℓ} (R : A → B → Type κ) (xs : List A) (ys : List B)
    → All (λ x. All (R x) ys) xs
    → All (λ y. All (λ x. R x y) xs) ys
All-swap R [] ys h = All-always (λ y. Unit) ys (λ y. tt)
All-swap R (x ∷ xs) ys h = All-zip (R x) (λ y. All (λ z. R z y) xs) ys h.0 (All-swap R xs ys h.1)

pub not-any {ℓ} :
    {A : Type ℓ} (p : A → Bool) (xs : List A) → any p xs ≡ false → All (λ x. p x ≡ false) xs
not-any p [] h = tt
not-any p (x ∷ xs) h = (ground arith, not-any p xs (ground arith))

-- What passes the test passes it.
pub keep-passes {ℓ} : {A : Type ℓ} (p : A → Bool) (xs : List A) → All (λ x. p x ≡ true) (keep p xs)
keep-passes p [] = tt
keep-passes p (x ∷ xs) = elim (Bool-cases (p x)) [
  | inl e ↦ rw (e, keep) (e, keep-passes p xs)
  | inr e ↦ rw (e, keep) (keep-passes p xs)
]

pub any-append {ℓ} :
    {A : Type ℓ} (p : A → Bool) (xs ys : List A)
    → any p (xs ++ ys) ≡ (if any p xs then true else any p ys)
any-append p [] ys = λ i. any p ys
any-append p (x ∷ xs) ys = ground (arith, any-append p xs ys)
