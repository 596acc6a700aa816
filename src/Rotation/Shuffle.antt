-- ===== src/Rotation/Shuffle.antt =====
-- rotation_generee.go: the shuffles of melangeStages and reglesDuCreneau.
use splatoon.Base.{
  ℕ, zero, suc, ◌+◌, ◌%◌, ◌<◌, ◌≡◌, refl, sym, ap, ◌∙◌, subst, true, false, List, [], ◌∷◌, ◌==◌, ℤ,
  length, get_or, set, All, AllPairs, arith,
}
use mathlib.Core.List.{Permᴰ}
use mathlib.Core.List.Permᴰ
use mathlib.Core.Path.{subst₂}
use splatoon.Rotation.{
  swap, shuffle, melange, permutation_de, stages_connus, mem, regles_du_creneau, regles_classees,
}

abbrev pub Other : ℕ → ℕ → Type 0
Other x y = (x == y) ≡ false

swap_two : {x y : ℕ} {l : List ℕ} → Permᴰ (x ∷ y ∷ l) (y ∷ x ∷ l)
swap_two = Permᴰ.swap refl refl

-- The first element changes places with another one.
exchange-perm :
    (x : ℕ) (xs : List ℕ) (j : ℕ) → j < length xs → Permᴰ (get_or xs j 0 ∷ set xs j x) (x ∷ xs)
exchange-perm x [] j h = absurd (omega arith)
exchange-perm x (y ∷ ys) zero h = swap_two
exchange-perm x (y ∷ ys) (suc j) h =
    Permᴰ.trans (swap_two)
      (Permᴰ.trans (Permᴰ.cons refl (exchange-perm x ys j (omega arith))) (swap_two))

length-set : (xs : List ℕ) (i v : ℕ) → length (set xs i v) ≡ length xs
length-set [] i v = refl
length-set (x ∷ xs) zero v = refl
length-set (x ∷ xs) (suc i) v = ap suc (length-set xs i v)

swap-perm : (i j : ℕ) (xs : List ℕ) → i < length xs → j < length xs → Permᴰ (swap i j xs) xs
swap-perm i j [] hi hj = absurd (omega arith)
swap-perm zero zero (x ∷ xs) hi hj = Permᴰ.refl _
swap-perm zero (suc j) (x ∷ xs) hi hj = exchange-perm x xs j (omega arith)
swap-perm (suc i) zero (x ∷ xs) hi hj = exchange-perm x xs i (omega arith)
swap-perm (suc i) (suc j) (x ∷ xs) hi hj =
    Permᴰ.cons refl (swap-perm i j xs (omega arith) (omega arith))

length-swap : (i j : ℕ) (xs : List ℕ) → length (swap i j xs) ≡ length xs
length-swap i j xs = length-set _ j _ ∙ length-set xs i _

-- Whatever the salt and the key.
shuffle-perm : (cle : ℤ) (sel i : ℕ) (xs : List ℕ) → i < length xs → Permᴰ (shuffle cle sel i xs) xs
unfolding shuffle
shuffle-perm cle sel zero xs h = Permᴰ.refl _
shuffle-perm cle sel (suc i) xs h =
    let m = melange cle (suc i + sel) in
    let j = m % (suc i + 1) in
    Permᴰ.trans
      (shuffle-perm cle sel i (swap (suc i) j xs) (omega (arith, length-swap (suc i) j xs)))
      (swap-perm (suc i) j xs h (omega arith))

pub permutation_de-perm : (groupe : ℤ) → Permᴰ (permutation_de groupe) stages_connus
unfolding permutation_de
permutation_de-perm groupe = shuffle-perm groupe 22438 24 stages_connus (omega arith)

-- The four rules of a slot, before the epoch as well, are the four rules of the game in some order.
regles_du_creneau-perm : (creneau : ℤ) → Permᴰ (regles_du_creneau creneau) regles_classees
unfolding regles_du_creneau
regles_du_creneau-perm creneau = shuffle-perm creneau 39966 3 regles_classees (omega arith)

-- What holds of every element, or of every two elements, does not depend on their order.
All-permuted : (P : ℕ → Type 0) {xs ys : List ℕ} → Permᴰ xs ys → All P ys → All P xs
All-permuted P Permᴰ.nil h = tt
All-permuted P (Permᴰ.cons e p) h = (subst P (sym e) h.0, All-permuted P p h.1)
All-permuted P (Permᴰ.swap e f) h = (subst P (sym e) h.1.0, (subst P (sym f) h.0, h.1.1))
All-permuted P (Permᴰ.trans p q) h = All-permuted P p (All-permuted P q h)

Other-sym : (x y : ℕ) → Other x y → Other y x
Other-sym x y h = ground arith

distinct-permuted : {xs ys : List ℕ} → Permᴰ xs ys → AllPairs Other ys → AllPairs Other xs
distinct-permuted Permᴰ.nil h = tt
distinct-permuted (Permᴰ.cons {l₁ = l} e p) h =
    (subst (λ z. All (Other z) l) (sym e) (All-permuted (Other _) p h.0), distinct-permuted p h.1)
distinct-permuted (Permᴰ.swap {a = a} {b = b} {a' = c} {b' = d} {l = l} e f) h = (
  (Other-sym _ _ (subst₂ Other (sym f) (sym e) h.0.0), subst (λ z. All (Other z) l) (sym e) h.1.0),
  (subst (λ z. All (Other z) l) (sym f) h.0.1, h.1.1),
)
distinct-permuted (Permᴰ.trans p q) h = distinct-permuted p (distinct-permuted q h)

length-permuted : {xs ys : List ℕ} → Permᴰ xs ys → length xs ≡ length ys
length-permuted Permᴰ.nil = refl
length-permuted (Permᴰ.cons e p) = ap suc (length-permuted p)
length-permuted (Permᴰ.swap e f) = refl
length-permuted (Permᴰ.trans p q) = length-permuted p ∙ length-permuted q

pub permutation_de-length : (groupe : ℤ) → length (permutation_de groupe) ≡ 25
permutation_de-length groupe = length-permuted (permutation_de-perm groupe)

pub permutation_de-distinct : (groupe : ℤ) → AllPairs Other (permutation_de groupe)
permutation_de-distinct groupe = distinct-permuted (permutation_de-perm groupe) (ground arith)

pub permutation_de-known :
    (groupe : ℤ) → All (λ v. mem v stages_connus ≡ true) (permutation_de groupe)
permutation_de-known groupe = All-permuted _ (permutation_de-perm groupe) (ground arith)
