-- ===== src/Scoring/Examples.antt =====
-- fest_bareme.go: the theorems at a concrete vote.
use splatoon.Base.{
  ℕ, ◌-◌, ◌*◌, ◌/◌, ◌≡◌, refl, true, false, not, ◌&&◌, [], ◌∷◌, map, length, ltb, ◌==◌, codes,
  Assoc, text_eq, text_lt, lookup, insert, arith,
}
use splatoon.Scoring.{Shares, classement_par_parts, places_avec_egalites, classements_de_la_fete}
use splatoon.Scoring.Places.{not_below, places_avec_egalites_lem}

pub percent_same : (a b : ℕ) → (a == b) ≡ (not (ltb b a) && not (ltb a b))
percent_same a b = ground arith

pub percent_asym : (a b : ℕ) → ltb b a ≡ true → ltb a b ≡ false
percent_asym a b h = ground arith

pub percent_negtrans : (a b c : ℕ) → ltb b a ≡ false → ltb c b ≡ false → ltb c a ≡ false
percent_negtrans a b c h k = ground arith

-- Shares in whole percents.
abbrev pub percents : Shares ℕ
percents = record {
  nought = 0;
  divide = λ n m. (n * 100) / m;
  above = λ a b. ltb b a;
  same = λ a b. a == b;
  same_iff = percent_same;
  asym = percent_asym;
  negtrans = percent_negtrans;
}

-- One voter, for Charlie.
abbrev one_vote : Assoc ℕ
one_vote = (codes "Alpha", 0) ∷ (codes "Bravo", 0) ∷ (codes "Charlie", 100) ∷ []

places_of_one_vote :
    places_avec_egalites percents one_vote (codes "Charlie" ∷ codes "Alpha" ∷ codes "Bravo" ∷ [])
    ≡ 0 ∷ 2 ∷ 2 ∷ []
unfolding places_avec_egalites lookup text_eq
places_of_one_vote = refl

places_avec_egalites_lem_example :
    (let ordre = classement_par_parts percents one_vote in
      places_avec_egalites percents one_vote ordre
      ≡ map (λ c. length (not_below percents one_vote c ordre) - 1) ordre)
places_avec_egalites_lem_example = places_avec_egalites_lem percents one_vote

-- Without a counted battle, the only vote gives its camp every first place.
totals_of_one_vote :
    (classements_de_la_fete percents (λ k. []) one_vote).1
    ≡ (codes "Charlie", 580) ∷ (codes "Alpha", 0) ∷ (codes "Bravo", 0) ∷ []
unfolding classements_de_la_fete lookup text_eq text_lt insert
totals_of_one_vote = refl
