-- ===== src/Base/Sort.antt =====
-- sort.Slice and sort.Strings, as an insertion sort. The server's orders are strict and total on the
-- values that it sorts, so the result does not depend on the algorithm.
use mathlib.Core.Path.{◌≡◌}
use mathlib.Core.Logic.{inl, inr}
use mathlib.Core.Bool.{Bool, true, false}
use mathlib.Core.List.{List, [], ◌∷◌, Perm}
use mathlib.Core.List.Perm
use package.splatoon.Base.Tests.{if◌then◌else◌, Bool-cases}
use package.splatoon.Base.Lists.{All, All-map, AllPairs}

module _ {ℓ} {A : Type ℓ} (before : A → A → Bool) where
  unfoldable pub insert_sorted : A → List A → List A
  insert_sorted x [] = x ∷ []
  insert_sorted x (y ∷ ys) = if before y x then y ∷ insert_sorted x ys else x ∷ y ∷ ys

  unfoldable pub sort_by : List A → List A
  unfolding insert_sorted
  sort_by [] = []
  sort_by (x ∷ xs) = insert_sorted x (sort_by xs)

  insert_sorted-perm : (x : A) (ys : List A) → Perm (insert_sorted x ys) (x ∷ ys)
  unfolding insert_sorted
  insert_sorted-perm x [] = Perm.refl _
  insert_sorted-perm x (y ∷ ys) = elim (Bool-cases (before y x)) [
    | inl e ↦ rw e (Perm.trans (Perm.cons y (insert_sorted-perm x ys)) (Perm.swap x y ys))
    | inr e ↦ rw e (Perm.refl _)
  ]

  pub sort_by-perm : (xs : List A) → Perm (sort_by xs) xs
  unfolding sort_by
  sort_by-perm [] = Perm.nil
  sort_by-perm (x ∷ xs) =
      Perm.trans (insert_sorted-perm x (sort_by xs)) (Perm.cons x (sort_by-perm xs))

  -- No element is before one that stands ahead of it.
  abbrev pub IsSorted : List A → Type ℓ
  IsSorted [] = Unit
  IsSorted (x ∷ xs) = All (λ y. before y x ≡ false) xs × IsSorted xs

  -- What a strict total order needs for the sort to be right.
  pub record IsTotal : Type ℓ where
    pub negtrans : (x y z : A) → before x y ≡ false → before y z ≡ false → before x z ≡ false
    pub asym : (x y : A) → before x y ≡ true → before y x ≡ false

  All-insert_sorted {κ} :
      (P : A → Type κ) (x : A) (ys : List A) → P x → All P ys → All P (insert_sorted x ys)
  unfolding insert_sorted
  All-insert_sorted P x [] h hs = (h, tt)
  All-insert_sorted P x (y ∷ ys) h hs = elim (Bool-cases (before y x)) [
    | inl e ↦ rw e (hs.0, All-insert_sorted P x ys h hs.1)
    | inr e ↦ rw e (h, hs)
  ]

  insert_sorted-IsSorted :
      IsTotal → (x : A) (ys : List A) → IsSorted ys → IsSorted (insert_sorted x ys)
  unfolding insert_sorted
  insert_sorted-IsSorted t x [] h = (tt, tt)
  insert_sorted-IsSorted t x (y ∷ ys) h = elim (Bool-cases (before y x)) [
    | inl e ↦ rw e (
      All-insert_sorted (λ z. before z y ≡ false) x ys (t.asym y x e) h.0,
      insert_sorted-IsSorted t x ys h.1,
    )
    | inr e ↦ rw e (
      (
        e,
        All-map (λ z. before z y ≡ false) (λ z. before z x ≡ false) (λ z p. t.negtrans z y x p e) ys
            h.0,
      ),
      h,
    )
  ]

  pub sort_by-IsSorted : IsTotal → (xs : List A) → IsSorted (sort_by xs)
  unfolding sort_by
  sort_by-IsSorted t [] = tt
  sort_by-IsSorted t (x ∷ xs) = insert_sorted-IsSorted t x (sort_by xs) (sort_by-IsSorted t xs)

  pub All-sort_by {κ} : (P : A → Type κ) (xs : List A) → All P xs → All P (sort_by xs)
  unfolding sort_by
  All-sort_by P [] h = tt
  All-sort_by P (x ∷ xs) h = All-insert_sorted P x (sort_by xs) h.0 (All-sort_by P xs h.1)

  AllPairs-insert_sorted {κ} :
      (R : A → A → Type κ)
      → ((x y : A) → R x y → R y x)
      → (x : A) (ys : List A) → All (R x) ys
      → AllPairs R ys
      → AllPairs R (insert_sorted x ys)
  unfolding insert_sorted
  AllPairs-insert_sorted R s x [] h hs = (tt, tt)
  AllPairs-insert_sorted R s x (y ∷ ys) h hs = elim (Bool-cases (before y x)) [
    | inl e ↦
        rw e
          (All-insert_sorted (R y) x ys (s x y h.0) hs.0, AllPairs-insert_sorted R s x ys h.1 hs.1)
    | inr e ↦ rw e (h, hs)
  ]

  -- Sorting keeps what holds between any two elements.
  pub AllPairs-sort_by {κ} :
      (R : A → A → Type κ)
      → ((x y : A) → R x y → R y x)
      → (xs : List A) → AllPairs R xs
      → AllPairs R (sort_by xs)
  unfolding sort_by
  AllPairs-sort_by R s [] h = tt
  AllPairs-sort_by R s (x ∷ xs) h =
      AllPairs-insert_sorted R s x (sort_by xs) (All-sort_by (R x) xs h.0)
        (AllPairs-sort_by R s xs h.1)

  All-of-insert_sorted {κ} :
      (P : A → Type κ) (x : A) (ys : List A) → All P (insert_sorted x ys) → P x × All P ys
  unfolding insert_sorted
  All-of-insert_sorted P x [] h = h
  All-of-insert_sorted P x (y ∷ ys) h = elim (Bool-cases (before y x)) [
    | inl e ↦
        let g : P y × All P (insert_sorted x ys) = rw e at h in
        let (px, rest) = All-of-insert_sorted P x ys g.1 in (px, (g.0, rest))
    | inr e ↦ let g : P x × All P (y ∷ ys) = rw e at h in g
  ]

  pub All-of-sort_by {κ} : (P : A → Type κ) (xs : List A) → All P (sort_by xs) → All P xs
  unfolding sort_by
  All-of-sort_by P [] h = tt
  All-of-sort_by P (x ∷ xs) h =
      let (px, rest) = All-of-insert_sorted P x (sort_by xs) h in (px, All-of-sort_by P xs rest)
