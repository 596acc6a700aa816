-- ===== src/Matchmaking/Teams/Balance.antt =====
-- fest_equipes.go, repartirParCamp: the match of two camps.
use splatoon.Base.{
  ℕ, ◌/◌, ◌≤◌, ◌≡◌, refl, true, false, ◌||◌, inl, inr, some, List, [], ◌∷◌, ◌++◌, ltb, ◌==◌, Text,
  codes, text_eq, text_eq_refl, text_lt_asym, text_lt_negtrans, length, take, any, All, AllPairs,
  All-take, All-keep, All-map, All-zip, keep-passes, Assoc, lookup, keys, Differ, Differ-sym,
  All-keys-lookup, sort_by, IsSorted, IsTotal, sort_by-IsSorted, AllPairs-sort_by, All-sort_by,
  All-of-sort_by, Bool-cases, Option-cases, OnSome, OnSome-some, arith,
}
use splatoon.Matchmaking.Types.{Waiter}
use splatoon.Matchmaking.Teams.{
  Env, camp_du_ticket, members, par_camp, Slots, no_slots, larger, deploy_camps, est_tricolore,
  repartir_par_camp,
}
use splatoon.Matchmaking.Teams.Groups.{
  of_camp, members-par_camp, par_camp-IsMap, par_camp-HasName, HasName, SameObject,
  absent_from_other, slot_here, slot_kept,
}

-- The first `n` players of a camp, in the order of the queue.
abbrev pub squad : ℕ → Text → List Waiter → List Waiter
squad n c players = take n (of_camp c players)

-- `chosen` is two squads of `n` players of two camps, each with a slot for its camp.
pub record IsBalanced (players : List Waiter) (n : ℕ) (chosen : List Waiter × Slots) : Type 0 where
  pub camp_a : Text
  pub camp_b : Text
  pub different : Differ camp_a camp_b
  pub squads : chosen.0 ≡ squad n camp_a players ++ squad n camp_b players
  pub full_a : n ≤ length (of_camp camp_a players)
  pub full_b : n ≤ length (of_camp camp_b players)
  pub largest :
      (c : Text)
      → HasName c
      → Differ c camp_a
      → Differ c camp_b
      → length (of_camp c players) ≤ length (of_camp camp_b players)
  pub slots_a : All (λ w. chosen.1 w.id ≡ codes "team1") (squad n camp_a players)
  pub slots_b : All (λ w. chosen.1 w.id ≡ codes "team2") (squad n camp_b players)

module _ (players : List Waiter) (same : SameObject players) where
  squad-SameObject :
      (n k : ℕ) (a b : Text)
      → All (λ w. All (λ v. w.id ≡ v.id → w ≡ v) (squad k b players)) (squad n a players)
  squad-SameObject n k a b = All-take _ n _ (
      All-keep _ _ players
        (All-map _ _ (λ w h. All-take _ k _ (All-keep _ _ players h)) players same))

  squad-camp :
      (n : ℕ) (a : Text) → All (λ w. text_eq (camp_du_ticket w) a ≡ true) (squad n a players)
  squad-camp n a = All-take _ n _ (keep-passes _ players)

  -- Squads of different camps share nobody.
  pub squads_apart :
      (n k : ℕ) (a b : Text)
      → Differ a b
      → All (λ w. any (λ v. w.id == v.id) (squad k b players) ≡ false) (squad n a players)
  squads_apart n k a b d =
      All-map _ _ (λ w h. absent_from_other a b w (squad k b players) d h.0 (squad-camp k b) h.1)
        (squad n a players)
        (All-zip _ _ (squad n a players) (squad-camp n a) (squad-SameObject n k a b))

pub larger_total : (m : Assoc (List Waiter)) → IsTotal (larger m)
larger_total m = record {
  negtrans = λ x y z h k. ground (arith, text_lt_negtrans x y z);
  asym = λ x y h. ground (arith, text_lt_asym x y);
}

-- Every other camp comes after the second of the sorted camps, so it is no larger.
second_is_best :
    (m : Assoc (List Waiter)) (a b : Text) (rest : List Text)
    → IsSorted (larger m) (a ∷ b ∷ rest)
    → All
        (λ c. Differ c a → Differ c b → length (members c m) ≤ length (members b m))
        (a ∷ b ∷ rest)
second_is_best m a b rest s = (
  λ h _. absurd (cc (text_eq_refl a)),
  (
    λ _ h. absurd (cc (text_eq_refl b)),
    All-map (λ c. larger m c b ≡ false) _ (λ c h _ _. ground arith) rest s.1.0,
  ),
)

module _ (players : List Waiter) (same : SameObject players) where
  others_smaller :
      (a b : Text) (rest : List Text)
      → HasName b
      → sort_by (larger (par_camp players)) (keys (par_camp players)) ≡ a ∷ b ∷ rest
      → (c : Text) → HasName c
      → Differ c a
      → Differ c b
      → length (of_camp c players) ≤ length (of_camp b players)
  unfolding lookup
  others_smaller a b rest hb e c hc da db =
      let m = par_camp players in
      rw (← members-par_camp c players hc, ← members-par_camp b players hb)
        (elim (Option-cases (lookup c m)) [
          | inl missing ↦ ground arith
          | inr (ws, found) ↦
              All-keys-lookup
                (λ c. Differ c a → Differ c b → length (members c m) ≤ length (members b m)) c ws m
                (All-of-sort_by (larger m) _ (keys m) (
                  rw e (
                    second_is_best m a b rest
                      (rw e at (sort_by-IsSorted (larger m) (larger_total m) (keys m))))))
                found da db
        ])

  pub deploy_camps-OnSome :
      (n : ℕ) (camps : List Text)
      → sort_by (larger (par_camp players)) (keys (par_camp players)) ≡ camps
      → AllPairs Differ camps
      → All HasName camps
      → OnSome (IsBalanced players n) (deploy_camps n camps (par_camp players))
  unfolding deploy_camps
  deploy_camps-OnSome n [] s d h = tt
  deploy_camps-OnSome n (a ∷ []) s d h = tt
  deploy_camps-OnSome n (a ∷ b ∷ rest) s d h =
      rw (members-par_camp a players h.0, members-par_camp b players h.1.0)
        (elim (Bool-cases
          (ltb (length (of_camp a players)) n || ltb (length (of_camp b players)) n)) [
            | inl e ↦ rw e tt
            | inr e ↦ rw e (record {
              camp_a = a;
              camp_b = b;
              different = d.0.0;
              squads = refl;
              full_a = ground arith;
              full_b = ground arith;
              largest = others_smaller a b rest h.1.0 s;
              slots_a =
                  slot_kept (codes "team2") (codes "team1") (squad n b players) (squad n a players)
                    _ (squads_apart players same n n a b d.0.0)
                    (slot_here (codes "team1") (squad n a players) no_slots);
              slots_b = slot_here (codes "team2") (squad n b players) _;
            })
          ])

  sorted_camps-Differ :
      AllPairs Differ (sort_by (larger (par_camp players)) (keys (par_camp players)))
  sorted_camps-Differ =
      AllPairs-sort_by _ Differ Differ-sym (keys (par_camp players)) (par_camp-IsMap players)

  sorted_camps-HasName : All HasName (sort_by (larger (par_camp players)) (keys (par_camp players)))
  sorted_camps-HasName = All-sort_by _ HasName (keys (par_camp players)) (par_camp-HasName players)

  -- Where waiters with one identity are one waiter, a choice that repartirParCamp makes outside
  -- tricolore is half the target of the first players of each of two different camps, in team1 and
  -- team2; both camps have that many, and no third camp has more players than the second of them.
  pub repartir_par_camp-IsBalanced :
      (env : Env) (seuil detendu : ℕ) (cfg fest_id : Text) {chosen : List Waiter × Slots}
      → est_tricolore env cfg ≡ false
      → repartir_par_camp env players seuil detendu cfg fest_id ≡ some chosen
      → IsBalanced players (seuil / 2) chosen
  unfolding repartir_par_camp
  repartir_par_camp-IsBalanced env seuil detendu cfg fest_id {chosen} t e =
      elim (Bool-cases (ltb seuil 2 || env.soir_flag (codes "festmelange"))) [
        | inl off ↦ absurd (ground arith)
        | inr on ↦
            OnSome-some (IsBalanced players (seuil / 2)) _
              (deploy_camps-OnSome (seuil / 2) _ refl sorted_camps-Differ sorted_camps-HasName)
              (rw (on, t) at e)
      ]
