-- ===== src/Rotation/Slots.antt =====
-- rotation_generee.go: the stages of a slot, a window that slides over the permutation of its group.
use splatoon.Base.{
  ℕ, zero, suc, ◌-◌, ◌*◌, ◌/◌, ◌%◌, ◌<◌, ◌≡◌, refl, sym, ap, ◌∙◌, subst, true, [], if◌then◌else◌, ℤ,
  pos, negsuc, length, take, All, AllPairs, arith,
}
use mathlib.Core.Path.{subst₂}
use splatoon.Rotation.{
  mem, negative, is_zero, pred, succ, groupe_de, rang_de, permutation_de, window, melange_stages,
  stages_du_creneau, stages_connus,
}
use splatoon.Rotation.Shuffle.{
  Other, permutation_de-length, permutation_de-distinct, permutation_de-known,
}
use splatoon.Rotation.Draw.{draws-take, free-nothing}
use splatoon.Rotation.Window.{
  get_or-All, window-All, window-distinct, window-apart, window-turn, take-window,
}

-- The group and the rank of a slot are a division that rounds down, before the epoch as well.
pred-negative : (n : ℕ) → pred (negative n) ≡ negsuc n
pred-negative zero = refl
pred-negative (suc n) = refl

rounded :
    (n r : ℕ)
    → suc n % 5 ≡ r
    → (if is_zero (negative r) then negative (suc n / 5) else pred (negative (suc n / 5)))
      ≡ negsuc (n / 5)
rounded n zero h = let q : suc n / 5 ≡ suc (n / 5) = omega arith in rw q
rounded n (suc r) h = let q : suc n / 5 ≡ n / 5 = omega arith in rw q (pred-negative (n / 5))

groupe_de-negsuc : (n : ℕ) → groupe_de (negsuc n) ≡ negsuc (n / 5)
unfolding groupe_de
groupe_de-negsuc n = rounded n (suc n % 5) refl

ranked :
    (n r : ℕ) → suc n % 5 ≡ r → (elim (negative r) [ pos n ↦ n | negsuc n ↦ 5 - suc n ]) ≡ 4 - n % 5
ranked n zero h = omega arith
ranked n (suc r) h = omega arith

rang_de-negsuc : (n : ℕ) → rang_de (negsuc n) ≡ 4 - n % 5
unfolding rang_de
rang_de-negsuc n = ranked n (suc n % 5) refl

-- Until the fifth slot of a group, the next slot is of the same group and of the next rank.
next_slot :
    (c : ℤ)
    → rang_de c < 4
    → (groupe_de (succ c) ≡ groupe_de c) × (rang_de (succ c) ≡ suc (rang_de c))
unfolding groupe_de rang_de
next_slot (pos n) h = let q : suc n / 5 ≡ n / 5 = omega arith in (ap pos q, omega arith)
next_slot (negsuc zero) h = absurd (omega (arith, rang_de-negsuc 0))
next_slot (negsuc (suc n)) h =
    let q : n / 5 ≡ suc n / 5 = omega (arith, rang_de-negsuc (suc n)) in
    (
      groupe_de-negsuc n ∙ ap negsuc q ∙ sym (groupe_de-negsuc (suc n)),
      omega (arith, rang_de-negsuc n, rang_de-negsuc (suc n)),
    )

-- The slot before a slot that does not start a group is not the last of a group.
pub rang_de-pred : (c : ℤ) → 0 < rang_de c → rang_de (pred c) < 4
unfolding rang_de
rang_de-pred (pos zero) h = absurd (omega arith)
rang_de-pred (pos (suc n)) h = omega arith
rang_de-pred (negsuc n) h = omega (arith, rang_de-negsuc n, rang_de-negsuc (suc n))

pub pred-succ : (c : ℤ) → pred (succ c) ≡ c
pred-succ (pos n) = refl
pred-succ (negsuc zero) = refl
pred-succ (negsuc (suc n)) = refl

pub succ-pred : (c : ℤ) → succ (pred c) ≡ c
succ-pred (pos zero) = refl
succ-pred (pos (suc n)) = refl
succ-pred (negsuc n) = refl

-- The order of the stages of a slot: all 25, from the index of its rank on.
melange_stages-window :
    (c : ℤ) → melange_stages c ≡ window 25 (10 * rang_de c) (permutation_de (groupe_de c))
unfolding melange_stages
melange_stages-window c =
    let p = permutation_de (groupe_de c) in
    let full = permutation_de-length (groupe_de c) in
    ap (λ n. window n ((10 * rang_de c) % n) p) full
    ∙ window-turn p full (permutation_de-distinct (groupe_de c)) 25 ((10 * rang_de c) % 25)
        (10 * rang_de c) (omega arith)

pub melange_stages-distinct : (c : ℤ) → AllPairs Other (melange_stages c)
melange_stages-distinct c =
    let g = groupe_de c in
    subst (AllPairs Other) (sym (melange_stages-window c)) (
      window-distinct (permutation_de g) (permutation_de-length g) (permutation_de-distinct g) 25 _
        (omega arith))

pub melange_stages-known : (c : ℤ) → All (λ v. mem v stages_connus ≡ true) (melange_stages c)
melange_stages-known c =
    let g = groupe_de c in
    let p = permutation_de g in
    subst (All _) (sym (melange_stages-window c)) (
      window-All p (permutation_de-length g) (permutation_de-distinct g) _ 25 (10 * rang_de c)
        (λ k a b.
          get_or-All _ p (k % 25) (omega (arith, permutation_de-length g))
            (permutation_de-known g)))

pub melange_stages-length : (c : ℤ) → length (melange_stages c) ≡ 25
unfolding window
melange_stages-length c = ap length (melange_stages-window c)

-- The ten stages of a slot are the first ten of its order.
pub stages_du_creneau-take : (c : ℤ) → stages_du_creneau c ≡ take 10 (melange_stages c)
unfolding stages_du_creneau
stages_du_creneau-take c =
    let ordre = melange_stages c in
    let all = free-nothing ordre in
    draws-take 5 ordre [] [] (melange_stages-distinct c)
      (omega (arith, ap length all, melange_stages-length c))
    ∙ ap (take 10) all

slot_window :
    (c : ℤ) → stages_du_creneau c ≡ window 10 (10 * rang_de c) (permutation_de (groupe_de c))
slot_window c =
    let g = groupe_de c in
    stages_du_creneau-take c
    ∙ ap (take 10) (melange_stages-window c)
    ∙ take-window (permutation_de g) (permutation_de-length g) (permutation_de-distinct g) 10 25 _
        (omega arith)

-- The ten stages of a slot and the ten of the next slot, by stagesDuCreneau, are different, unless
-- the first slot is the last of its group of five.
pub stages_du_creneau-apart :
    (c : ℤ)
    → rang_de c < 4
    → All (λ v. All (Other v) (stages_du_creneau (succ c))) (stages_du_creneau c)
stages_du_creneau-apart c h =
    let g = groupe_de c in
    let (same, next) = next_slot c h in
    let after : stages_du_creneau (succ c) ≡ window 10 (10 * suc (rang_de c)) (permutation_de g) =
      slot_window (succ c) ∙ (λ i. window 10 (10 * next i) (permutation_de (same i))) in
    subst₂ (λ xs ys. All (λ v. All (Other v) ys) xs) (sym (slot_window c)) (sym after)
      (window-apart (permutation_de g) (permutation_de-length g) (permutation_de-distinct g) 10
        (10 * rang_de c) 10 (10 * suc (rang_de c)) (omega arith) (omega arith))
