-- ===== src/Matchmaking/Teams/Enough.antt =====
-- fest_equipes.go, repartirParCamp: when there is a choice.
use splatoon.Base.{
  ℕ, ◌/◌, ◌≤◌, ◌<◌, ◌≡◌, refl, true, false, ◌||◌, inl, inr, some, List, [], ◌∷◌, ltb, Text, codes,
  text_eq, text_eq_iff, text_eq_refl, length, All, All-map, Assoc, lookup, keys, Differ,
  All-keys-lookup, sort_by, IsSorted, sort_by-IsSorted, All-of-sort_by, Bool-cases, Option-cases,
  arith,
}
use splatoon.Matchmaking.Types.{Waiter}
use splatoon.Matchmaking.Teams.{
  Env, members, par_camp, Slots, larger, deploy_camps, est_tricolore, repartir_par_camp,
}
use splatoon.Matchmaking.Teams.Groups.{of_camp, members-par_camp, HasName}
use splatoon.Matchmaking.Teams.Balance.{larger_total}

module _ (m : Assoc (List Waiter)) (n : ℕ) (a b : Text) where
  -- A camp with players is one of the sorted camps.
  of_sorted :
      (P : Text → Type 0) (c : Text)
      → 0 < length (members c m)
      → All P (sort_by (larger m) (keys m))
      → P c
  of_sorted P c some_players h = elim (Option-cases (lookup c m)) [
    | inl missing ↦ absurd (ground arith)
    | inr (ws, found) ↦ All-keys-lookup P c ws m (All-of-sort_by (larger m) P (keys m) h) found
  ]

  -- Every camp but the first has no more players than the second.
  up_to_second :
      (x y : Text) (rest : List Text)
      → IsSorted (larger m) (x ∷ y ∷ rest)
      → All (λ c. Differ c x → length (members c m) ≤ length (members y m)) (x ∷ y ∷ rest)
  up_to_second x y rest s = (
    λ h. absurd (cc (text_eq_refl x)),
    (λ _. omega arith, All-map (λ c. larger m c y ≡ false) _ (λ c h _. ground arith) rest s.1.0),
  )

  module _ (one : 0 < n) (differ : Differ a b) (enough_a : n ≤ length (members a m))
      (enough_b : n ≤ length (members b m)) where
    second_enough :
        (x y : Text) (rest : List Text)
        → sort_by (larger m) (keys m) ≡ x ∷ y ∷ rest
        → IsSorted (larger m) (x ∷ y ∷ rest)
        → n ≤ length (members y m)
    second_enough x y rest e s =
        let smaller = λ (c : Text) (h : n ≤ length (members c m)).
          of_sorted (λ c. Differ c x → length (members c m) ≤ length (members y m)) c (omega arith)
            (rw e (up_to_second x y rest s)) in
        elim (Bool-cases (text_eq a x)) [
          | inl same ↦
              let le =
                smaller b enough_b
                  (ground (arith, text_eq_iff a x, text_eq_iff b x, text_eq_iff a b)) in
              omega arith
          | inr other ↦ let le = smaller a enough_a other in omega arith
        ]

    deploy_camps-some :
        (camps : List Text)
        → sort_by (larger m) (keys m) ≡ camps
        → IsSorted (larger m) camps
        → (chosen : List Waiter × Slots) × (deploy_camps n camps m ≡ some chosen)
    unfolding deploy_camps
    deploy_camps-some [] e s = absurd (of_sorted (λ _. ⊥) a (omega arith) (rw e tt))
    deploy_camps-some (x ∷ []) e s =
        let is_x = λ (c : Text) (h : n ≤ length (members c m)).
          of_sorted (λ c. text_eq c x ≡ true) c (omega arith) (rw e (text_eq_refl x, tt)) in
        absurd (
          ground (
            arith,
            is_x a enough_a,
            is_x b enough_b,
            text_eq_iff a x,
            text_eq_iff b x,
            text_eq_iff a b,
          ))
    deploy_camps-some (x ∷ y ∷ rest) e s =
        let second = second_enough x y rest e s in
        let first : larger m y x ≡ false = s.0.0 in
        let test : (ltb (length (members x m)) n || ltb (length (members y m)) n) ≡ false =
          ground arith in
        rw test (_, refl)

-- Whatever the rest of the queue, a queue of a Splatfest that holds half the target, which is at
-- least two, of players of each of two different camps gets a choice of players, where the flag
-- festmelange is not set and the queue is not a tricolore one.
pub repartir_par_camp_total :
    (env : Env) (players : List Waiter) (seuil detendu : ℕ) (cfg fest_id a b : Text)
    → 2 ≤ seuil
    → env.soir_flag (codes "festmelange") ≡ false
    → est_tricolore env cfg ≡ false
    → HasName a
    → HasName b
    → Differ a b
    → seuil / 2 ≤ length (of_camp a players)
    → seuil / 2 ≤ length (of_camp b players)
    → (chosen : List Waiter × Slots) × (repartir_par_camp env players seuil detendu cfg fest_id
        ≡ some chosen)
unfolding repartir_par_camp
repartir_par_camp_total env players seuil detendu cfg fest_id a b two off t ha hb d ea eb =
    let big : ltb seuil 2 ≡ false = ground arith in
    rw (big, off, t)
      (deploy_camps-some (par_camp players) (seuil / 2) a b (omega arith) d
        (rw (members-par_camp a players ha) ea) (rw (members-par_camp b players hb) eb)
        (sort_by (larger (par_camp players)) (keys (par_camp players))) refl
        (sort_by-IsSorted _ (larger_total (par_camp players)) (keys (par_camp players))))
