-- ===== src/Scoring/Ties.antt =====
-- fest_bareme.go, placesAvecEgalites: the loops over the groups of tied camps.
use splatoon.Base.{
  ℕ, suc, ◌+◌, ◌≡◌, refl, ap, ◌∙◌, true, inl, inr, List, [], ◌∷◌, Text, Assoc, Bool-cases, arith,
}
use splatoon.Scoring.{Shares, part, run, places_from, places_avec_egalites}

module _ {ℓ} {A : Type ℓ} (S : Shares A) (parts : Assoc A) where
  -- The last place of the group of each camp, from the camps that follow it.
  abbrev pub last_places : ℕ → List Text → List ℕ
  last_places i [] = []
  last_places i (c ∷ cs) = (i + run S parts c cs) ∷ last_places (suc i) cs

  same_trans : (a b c : A) → S.same a b ≡ true → S.same c a ≡ S.same c b
  same_trans a b c h = ground (
    arith,
    S.same_iff a b,
    S.same_iff c a,
    S.same_iff c b,
    S.negtrans c a b,
    S.negtrans c b a,
    S.negtrans a b c,
    S.negtrans b a c,
  )

  run-same :
      (c d : Text) (cs : List Text)
      → S.same (part S parts c) (part S parts d) ≡ true
      → run S parts c cs ≡ run S parts d cs
  unfolding run
  run-same c d [] h = refl
  run-same c d (x ∷ cs) h =
      ground
        (arith, same_trans (part S parts c) (part S parts d) (part S parts x) h, run-same c d cs h)

  in_group :
      (p : Text) (place i : ℕ) (cs : List Text)
      → suc place ≡ i + run S parts p cs
      → places_from S parts place (run S parts p cs) i cs ≡ last_places i cs
  unfolding places_from run
  in_group p place i [] h = refl
  in_group p place i (c ∷ cs) h = elim (Bool-cases (S.same (part S parts c) (part S parts p))) [
    | inl tied ↦
        let n : run S parts c cs ≡ run S parts p cs = run-same c p cs tied in
        let e : run S parts p (c ∷ cs) ≡ suc (run S parts c cs) = ground (arith, tied, n) in
        let here : place ≡ i + run S parts c cs = omega (arith, e) in
        ap (λ k. places_from S parts place k i (c ∷ cs)) e
        ∙ ap (λ l. place ∷ l) (in_group c place (suc i) cs (omega arith))
        ∙ ap (λ k. k ∷ last_places (suc i) cs) here
    | inr apart ↦
        let e : run S parts p (c ∷ cs) ≡ 0 = ground (arith, apart) in
        ap (λ k. places_from S parts place k i (c ∷ cs)) e
        ∙ ap (λ l. (i + run S parts c cs) ∷ l)
            (in_group c (i + run S parts c cs) (suc i) cs (omega arith))
  ]

  pub places_avec_egalites-last :
      (cs : List Text) → places_avec_egalites S parts cs ≡ last_places 0 cs
  unfolding places_avec_egalites places_from
  places_avec_egalites-last [] = refl
  places_avec_egalites-last (c ∷ cs) =
      ap (λ l. (0 + run S parts c cs) ∷ l) (in_group c (0 + run S parts c cs) 1 cs (omega arith))
