-- ===== src/Rotation/Window.antt =====
-- rotation_generee.go, melangeStages: windows on a list that goes round.
use splatoon.Base.{
  ℕ, zero, suc, ◌+◌, ◌%◌, ◌≤◌, ◌<◌, ◌≡◌, refl, sym, ap, ◌∙◌, subst, inl, inr, List, [], ◌∷◌, ltb,
  length, get_or, take, All, AllPairs, Bool-cases, arith,
}
use splatoon.Rotation.{window}
use splatoon.Rotation.Shuffle.{Other}

-- The stage at an index of a permutation that goes round.
abbrev pub at : List ℕ → ℕ → ℕ
at p i = get_or p (i % 25) 0

pub get_or-All :
    (P : ℕ → Type 0) (xs : List ℕ) (i : ℕ) → i < length xs → All P xs → P (get_or xs i 0)
get_or-All P [] i h a = absurd (omega arith)
get_or-All P (x ∷ xs) zero h a = a.0
get_or-All P (x ∷ xs) (suc i) h a = get_or-All P xs i (omega arith) a.1

get_or-Other :
    (xs : List ℕ) (i j : ℕ)
    → AllPairs Other xs
    → i < j
    → j < length xs
    → Other (get_or xs i 0) (get_or xs j 0)
get_or-Other [] i j d h k = absurd (omega arith)
get_or-Other (x ∷ xs) zero zero d h k = absurd (omega arith)
get_or-Other (x ∷ xs) zero (suc j) d h k = get_or-All (Other x) xs j (omega arith) d.0
get_or-Other (x ∷ xs) (suc i) zero d h k = absurd (omega arith)
get_or-Other (x ∷ xs) (suc i) (suc j) d h k = get_or-Other xs i j d.1 (omega arith) (omega arith)

module _ (p : List ℕ) (full : length p ≡ 25) (d : AllPairs Other p) where
  pub at-Other : (i j : ℕ) → i < j → j < i + 25 → Other (at p i) (at p j)
  at-Other i j h k = elim (Bool-cases (ltb (i % 25) (j % 25))) [
    | inl e ↦ get_or-Other p (i % 25) (j % 25) d (ground arith) (omega arith)
    | inr e ↦
        let less : j % 25 < i % 25 = ground arith in
        let o : Other (at p j) (at p i) = get_or-Other p (j % 25) (i % 25) d less (omega arith) in
        ground arith
  ]

  window-step : (n i : ℕ) → window (suc n) i p ≡ at p i ∷ window n (suc i) p
  unfolding window
  window-step n i = ap (λ l. get_or p (i % l) 0 ∷ window n (suc i) p) full

  pub window-All :
      (P : ℕ → Type 0) (n s : ℕ) → ((k : ℕ) → s ≤ k → k < s + n → P (at p k)) → All P (window n s p)
  unfolding window
  window-All P zero s h = tt
  window-All P (suc n) s h = subst (All P) (sym (window-step n s)) (
    h s (omega arith) (omega arith),
    window-All P n (suc s) (λ k a b. h k (omega arith) (omega arith)),
  )

  pub window-distinct : (n s : ℕ) → n ≤ 25 → AllPairs Other (window n s p)
  unfolding window
  window-distinct zero s h = tt
  window-distinct (suc n) s h = subst (AllPairs Other) (sym (window-step n s)) (
    window-All (Other (at p s)) n (suc s) (λ k a b. at-Other s k (omega arith) (omega arith)),
    window-distinct n (suc s) (omega arith),
  )

  -- A window and a later one that does not come round to it.
  pub window-apart :
      (n s m t : ℕ)
      → s + n ≤ t
      → t + m ≤ s + 25
      → All (λ x. All (Other x) (window m t p)) (window n s p)
  window-apart n s m t h k =
      window-All _ n s
        (λ i a b. window-All _ m t (λ j c e. at-Other i j (omega arith) (omega arith)))

  pub window-turn : (n i j : ℕ) → i % 25 ≡ j % 25 → window n i p ≡ window n j p
  unfolding window
  window-turn zero i j h = refl
  window-turn (suc n) i j h =
      window-step n i
      ∙ (λ k. get_or p (h k) 0 ∷ window-turn n (suc i) (suc j) (omega arith) k)
      ∙ sym (window-step n j)

  pub take-window : (k n s : ℕ) → k ≤ n → take k (window n s p) ≡ window k s p
  unfolding window
  take-window zero n s h = refl
  take-window (suc k) zero s h = absurd (omega arith)
  take-window (suc k) (suc n) s h =
      ap (λ l. get_or p (s % length p) 0 ∷ l) (take-window k n (suc s) (omega arith))
