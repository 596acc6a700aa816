-- ===== src/Scoring/Places.antt =====
-- fest_bareme.go: the places of the camps and the order of the totals.
use splatoon.Base.{
  ℕ, suc, ◌+◌, ◌-◌, ◌≡◌, refl, ◌∙◌, true, false, not, inl, inr, List, [], ◌∷◌, map, keep, length,
  Text, Assoc, All, All-map, All-always, Perm, sort_by-perm, IsSorted, IsTotal, sort_by-IsSorted,
  text_lt_asym, text_lt_negtrans, keys, Bool-cases, arith,
}
use splatoon.Scoring.{
  Shares, part, before_camp, before_points, classement_par_points, run, classement_par_parts,
  places_avec_egalites,
}
use splatoon.Scoring.Ties.{last_places, places_avec_egalites-last}

module _ {ℓ} {A : Type ℓ} (S : Shares A) (parts : Assoc A) where
  -- The camps whose share is not below that of the given one.
  abbrev pub not_below : Text → List Text → List Text
  not_below c cs = keep (λ d. not (S.above (part S parts c) (part S parts d))) cs

  before_camp-IsTotal : IsTotal (before_camp S parts)
  before_camp-IsTotal = record {
    negtrans = λ a b c h k. ground (
      arith,
      S.same_iff (part S parts a) (part S parts b),
      S.same_iff (part S parts b) (part S parts c),
      S.same_iff (part S parts a) (part S parts c),
      S.negtrans (part S parts a) (part S parts b) (part S parts c),
      S.negtrans (part S parts b) (part S parts c) (part S parts a),
      S.negtrans (part S parts c) (part S parts a) (part S parts b),
      S.negtrans (part S parts c) (part S parts b) (part S parts a),
      S.negtrans (part S parts b) (part S parts a) (part S parts c),
      S.negtrans (part S parts a) (part S parts c) (part S parts b),
      text_lt_negtrans a b c,
    );
    asym = λ a b h. ground (
      arith,
      S.same_iff (part S parts a) (part S parts b),
      S.same_iff (part S parts b) (part S parts a),
      S.asym (part S parts a) (part S parts b),
      text_lt_asym a b,
    );
  }

  not_above :
      (x d : Text)
      → before_camp S parts d x ≡ false
      → S.above (part S parts d) (part S parts x) ≡ false
  not_above x d h = ground (arith, S.same_iff (part S parts d) (part S parts x))

  -- Nobody is left at the share of c once a camp below it has come.
  none_left :
      (c x : Text) (cs : List Text)
      → S.above (part S parts c) (part S parts x) ≡ true
      → All (λ d. S.above (part S parts d) (part S parts x) ≡ false) cs
      → not_below c cs ≡ []
  none_left c x [] h a = refl
  none_left c x (d ∷ cs) h a = ground (
    arith,
    none_left c x cs h a.1,
    S.negtrans (part S parts c) (part S parts d) (part S parts x),
    a.0,
  )

  run-not_below :
      (c : Text) (cs : List Text)
      → All (λ d. S.above (part S parts d) (part S parts c) ≡ false) cs
      → IsSorted (before_camp S parts) cs
      → run S parts c cs ≡ length (not_below c cs)
  unfolding run
  run-not_below c [] h s = refl
  run-not_below c (d ∷ cs) h s = elim (Bool-cases (S.above (part S parts c) (part S parts d))) [
    | inl lower ↦ ground (
      arith,
      S.same_iff (part S parts d) (part S parts c),
      none_left c d cs lower (All-map _ _ (not_above d) cs s.0),
    )
    | inr equal ↦
        ground
          (arith, S.same_iff (part S parts d) (part S parts c), h.0, run-not_below c cs h.1 s.1)
  ]

  map_same : (f g : Text → ℕ) (cs : List Text) → All (λ c. f c ≡ g c) cs → map f cs ≡ map g cs
  map_same f g [] h = refl
  map_same f g (c ∷ cs) h = ground (arith, h.0, map_same f g cs h.1)

  last_places-not_below :
      (i : ℕ) (cs : List Text)
      → IsSorted (before_camp S parts) cs
      → last_places S parts i cs ≡ map (λ c. i + length (not_below c cs) - 1) cs
  last_places-not_below i [] s = refl
  last_places-not_below i (c ∷ cs) s =
      let above =
        All-map _ (λ d. S.above (part S parts d) (part S parts c) ≡ false) (not_above c) cs s.0 in
      let self : S.above (part S parts c) (part S parts c) ≡ false =
        ground (arith, S.asym (part S parts c) (part S parts c)) in
      let here : length (not_below c (c ∷ cs)) ≡ suc (length (not_below c cs)) =
        ground (arith, self) in
      let head : i + run S parts c cs ≡ i + length (not_below c (c ∷ cs)) - 1 =
        omega (arith, here, run-not_below c cs above s.1) in
      let rest : map (λ d. suc i + length (not_below d cs) - 1) cs
          ≡ map (λ d. i + length (not_below d (c ∷ cs)) - 1) cs =
        map_same _ _ cs (
          All-map _
            (λ d. suc i + length (not_below d cs) - 1 ≡ i + length (not_below d (c ∷ cs)) - 1)
            (λ d h. later i d c cs h) cs above) in
      (λ k. head k ∷ (last_places-not_below (suc i) cs s.1 ∙ rest) k)
    where
      later :
          (i : ℕ) (d c : Text) (cs : List Text)
          → S.above (part S parts d) (part S parts c) ≡ false
          → suc i + length (not_below d cs) - 1 ≡ i + length (not_below d (c ∷ cs)) - 1
      later i d c cs h = ground (arith, h)

-- For shares whose comparisons behave as those of float64 without NaN, the place that
-- placesAvecEgalites gives a camp in the ranking of classementParParts is the number of camps of the
-- ranking whose share is not below its own, less one: camps that the measure does not separate share
-- the last place of their group.
pub places_avec_egalites_lem {ℓ} :
    {A : Type ℓ} (S : Shares A) (parts : Assoc A)
    → (let ordre = classement_par_parts S parts in
        places_avec_egalites S parts ordre
        ≡ map (λ c. length (not_below S parts c ordre) - 1) ordre)
unfolding classement_par_parts
places_avec_egalites_lem S parts =
    let ordre = classement_par_parts S parts in
    places_avec_egalites-last S parts ordre
    ∙ last_places-not_below S parts 0 ordre
        (sort_by-IsSorted (before_camp S parts) (before_camp-IsTotal S parts) (keys parts))
    ∙ map_same S parts _ _ ordre (
        All-always
          (λ c. 0 + length (not_below S parts c ordre) - 1 ≡ length (not_below S parts c ordre) - 1)
          ordre (λ c. omega arith))

before_points-IsTotal : (total : Assoc ℕ) → IsTotal (before_points total)
before_points-IsTotal total = record {
  negtrans = λ a b c h k. ground (arith, text_lt_negtrans a b c);
  asym = λ a b h. ground (arith, text_lt_asym a b);
}

-- classementParPoints lists the camps of the totals, each once, by decreasing total, and by name
-- where the totals are the same.
classement_par_points-IsSorted :
    (total : Assoc ℕ)
    → IsSorted (before_points total) (classement_par_points total)
      × Perm (classement_par_points total) (keys total)
unfolding classement_par_points
classement_par_points-IsSorted total = (
  sort_by-IsSorted (before_points total) (before_points-IsTotal total) (keys total),
  sort_by-perm (before_points total) (keys total),
)
