-- ===== src/Matchmaking/Teams/Tricolore.antt =====
-- fest_equipes.go, repartirTricolore: the match of three camps.
use splatoon.Base.{
  ℕ, ◌≤◌, ◌≡◌, refl, true, ◌||◌, inl, inr, some, List, [], ◌∷◌, ◌++◌, ltb, Text, codes, is_empty,
  text_lt, length, All, AllPairs, All-map, All-zip, All-keep, AllPairs-keep, keep-passes, keys,
  Differ, Differ-sym, sort_by, AllPairs-sort_by, All-sort_by, Bool-cases, OnSome, OnSome-some,
  arith,
}
use splatoon.Matchmaking.Types.{Waiter}
use splatoon.Matchmaking.Teams.{
  Env, members, par_camp, Slots, no_slots, est_tricolore, attaquants, deploy_tricolore,
  repartir_tricolore, repartir_par_camp,
}
use splatoon.Matchmaking.Teams.Groups.{
  of_camp, members-par_camp, par_camp-IsMap, par_camp-HasName, HasName, SameObject, slot_here,
  slot_kept,
}
use splatoon.Matchmaking.Teams.Balance.{squad, squads_apart}

-- Four players of the defender, two of each of two other camps, and a slot for each camp.
pub record IsTricolore (players : List Waiter) (defender : Text) (chosen : List Waiter × Slots)
    : Type 0 where
  pub camp_a : Text
  pub camp_b : Text
  pub apart_a : Differ camp_a defender
  pub apart_b : Differ camp_b defender
  pub different : Differ camp_a camp_b
  pub squads :
      chosen.0 ≡ squad 4 defender players ++ (squad 2 camp_a players ++ squad 2 camp_b players)
  pub full : 4 ≤ length (of_camp defender players)
  pub full_a : 2 ≤ length (of_camp camp_a players)
  pub full_b : 2 ≤ length (of_camp camp_b players)
  pub slots_d : All (λ w. chosen.1 w.id ≡ codes "team1") (squad 4 defender players)
  pub slots_a : All (λ w. chosen.1 w.id ≡ codes "team2") (squad 2 camp_a players)
  pub slots_b : All (λ w. chosen.1 w.id ≡ codes "team3") (squad 2 camp_b players)

-- What qualifies an attacker.
abbrev Attacks : List Waiter → Text → Text → Type 0
Attacks players d c = Differ c d × (2 ≤ length (of_camp c players)) × HasName c

module _ (players : List Waiter) (same : SameObject players) (d : Text) (hd : HasName d) where
  attaquants-Attacks : All (Attacks players d) (attaquants d (par_camp players))
  unfolding attaquants
  attaquants-Attacks =
      All-map _ (Attacks players d)
        (λ c h. (ground arith, rw (← members-par_camp c players h.1) (ground arith), h.1))
        (attaquants d (par_camp players))
        (All-zip _ _ (attaquants d (par_camp players)) (keep-passes _ (keys (par_camp players)))
          (All-keep _ _ (keys (par_camp players)) (par_camp-HasName players)))

  deploy_tricolore-OnSome :
      (camps : List Text)
      → 4 ≤ length (of_camp d players)
      → AllPairs Differ camps
      → All (Attacks players d) camps
      → OnSome (IsTricolore players d) (deploy_tricolore d camps (par_camp players))
  unfolding deploy_tricolore
  deploy_tricolore-OnSome [] full p h = tt
  deploy_tricolore-OnSome (a ∷ []) full p h = tt
  deploy_tricolore-OnSome (a ∷ b ∷ rest) full p h =
      let ha = h.0 in
      let hb = h.1.0 in
      let apart = squads_apart players same in
      rw
        (
          members-par_camp d players hd,
          members-par_camp a players ha.2,
          members-par_camp b players hb.2,
        )
        (record {
          camp_a = a;
          camp_b = b;
          apart_a = ha.0;
          apart_b = hb.0;
          different = p.0.0;
          squads = refl;
          full = full;
          full_a = ha.1;
          full_b = hb.1;
          slots_d =
              slot_kept (codes "team3") (codes "team1") (squad 2 b players) (squad 4 d players) _
                (apart 4 2 d b (Differ-sym b d hb.0))
                (slot_kept (codes "team2") (codes "team1") (squad 2 a players) (squad 4 d players) _
                  (apart 4 2 d a (Differ-sym a d ha.0))
                  (slot_here (codes "team1") (squad 4 d players) no_slots));
          slots_a =
              slot_kept (codes "team3") (codes "team2") (squad 2 b players) (squad 2 a players) _
                (apart 2 2 a b p.0.0) (slot_here (codes "team2") (squad 2 a players) _);
          slots_b = slot_here (codes "team3") (squad 2 b players) _;
        })

  attaquants-Differ : AllPairs Differ (sort_by text_lt (attaquants d (par_camp players)))
  unfolding attaquants
  attaquants-Differ =
      AllPairs-sort_by _ Differ Differ-sym _
        (AllPairs-keep Differ _ (keys (par_camp players)) (par_camp-IsMap players))

-- Where waiters with one identity are one waiter, a choice that repartirParCamp makes in a tricolore
-- queue opposes four players of the camp that defends, in team1, to two players of each of two other
-- camps, in team2 and team3.
pub repartir_par_camp-IsTricolore :
    (players : List Waiter) (env : Env) (seuil detendu : ℕ) (cfg fest_id : Text)
    {chosen : List Waiter × Slots}
    → SameObject players
    → est_tricolore env cfg ≡ true
    → repartir_par_camp env players seuil detendu cfg fest_id ≡ some chosen
    → IsTricolore players (env.camp_defenseur fest_id) chosen
unfolding repartir_par_camp repartir_tricolore
repartir_par_camp-IsTricolore players env seuil detendu cfg fest_id {chosen} same t e =
    elim (Bool-cases (ltb seuil 2 || env.soir_flag (codes "festmelange"))) [
      | inl off ↦ absurd (ground arith)
      | inr on ↦
          let d = env.camp_defenseur fest_id in
          elim (Bool-cases (is_empty d || ltb (length (members d (par_camp players))) 4)) [
            | inl few ↦ absurd (ground arith)
            | inr many ↦
                let hd : HasName d = ground arith in
                OnSome-some (IsTricolore players d) _
                  (deploy_tricolore-OnSome players same d hd _
                    (rw (← members-par_camp d players hd) (ground arith))
                    (attaquants-Differ players same d hd)
                    (All-sort_by text_lt (Attacks players d) (attaquants d (par_camp players))
                      (attaquants-Attacks players same d hd)))
                  (rw (on, t, many) at e)
          ]
    ]
