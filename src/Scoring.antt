-- ===== src/Scoring.antt =====
-- fest_bareme.go: the verdict of a Splatfest that has ended, the places of its camps and their points.
pub mod Ties
pub mod Places
pub mod Examples
use splatoon.Base.{
  ℕ, zero, suc, ◌+◌, ◌-◌, ◌≡◌, Bool, true, false, not, ◌&&◌, Option, none, some, List, [], ◌∷◌,
  ◌++◌, map, if◌then◌else◌, ltb, ◌==◌, Text, codes, is_empty, text_eq, text_lt, Assoc, lookup,
  insert, keys, sort_by,
}

-- The float64 of a share, as far as the code reads it: its zero, the division of two counts, and the
-- comparisons, with what IEEE 754 says of them where no share is NaN.
pub record Shares {ℓ} (A : Type ℓ) : Type ℓ where
  pub nought : A
  pub divide : ℕ → ℕ → A
  pub above : A → A → Bool
  pub same : A → A → Bool
  pub same_iff : (a b : A) → same a b ≡ (not (above a b) && not (above b a))
  pub asym : (a b : A) → above a b ≡ true → above b a ≡ false
  pub negtrans : (a b c : A) → above a b ≡ false → above b c ≡ false → above a c ≡ false

-- poidsDuBareme and pointsDuCritere
pub data Critere : Type 0 where
  yobisai player_count regular challenge tricolor : Critere

unfoldable pub points_du_critere : Critere → ℕ → ℕ
points_du_critere yobisai place = if place == 0 then 90 else if place == 1 then 45 else 0
points_du_critere player_count place = if place == 0 then 70 else if place == 1 then 35 else 0
points_du_critere regular place = if place == 0 then 120 else if place == 1 then 60 else 0
points_du_critere challenge place = if place == 0 then 120 else if place == 1 then 60 else 0
points_du_critere tricolor place = if place == 0 then 180 else if place == 1 then 90 else 0

-- out[camp] = pl[i]
abbrev pub placed : List Text → List ℕ → Assoc ℕ → Assoc ℕ
placed [] places out = out
placed (c ∷ cs) [] out = out
placed (c ∷ cs) (n ∷ ns) out = placed cs ns (insert c n out)

abbrev pub total_of : Assoc ℕ → ℕ
total_of [] = 0
total_of (e ∷ es) = e.1 + total_of es

abbrev pub count_of : Assoc ℕ → Text → ℕ
count_of m camp = elim (lookup camp m) [ none ↦ 0 | some n ↦ n ]

-- total[camp] += points
abbrev pub add_points : Text → ℕ → Assoc ℕ → Assoc ℕ
add_points c n total = insert c (count_of total c + n) total

unfoldable pub points_du_vote : List Text → List ℕ → Assoc ℕ → Assoc ℕ
unfolding points_du_critere insert
points_du_vote [] places total = total
points_du_vote (c ∷ cs) [] total = total
points_du_vote (c ∷ cs) (n ∷ ns) total =
    points_du_vote cs ns (add_points c (points_du_critere yobisai n) total)

unfoldable pub points_du_classement : Critere → Assoc ℕ → List Text → Assoc ℕ → Assoc ℕ
unfolding points_du_critere insert
points_du_classement k par_camp [] total = total
points_du_classement k par_camp (c ∷ cs) total =
    points_du_classement k par_camp cs
      (add_points c (points_du_critere k (count_of par_camp c)) total)

module _ {ℓ} {A : Type ℓ} (S : Shares A) where
  -- parts[camp]
  abbrev pub part : Assoc A → Text → A
  part parts camp = elim (lookup camp parts) [ none ↦ S.nought | some a ↦ a ]

  abbrev pub before_camp : Assoc A → Text → Text → Bool
  before_camp parts c d =
      if S.same (part parts c) (part parts d)
      then text_lt c d
      else S.above (part parts c) (part parts d)

  unfoldable pub classement_par_parts : Assoc A → List Text
  unfolding sort_by text_lt
  classement_par_parts parts = sort_by (before_camp parts) (keys parts)

  -- How many of the next camps have the share of the given one.
  unfoldable pub run : Assoc A → Text → List Text → ℕ
  run parts c [] = 0
  run parts c (d ∷ ds) =
      let n = run parts c ds in if S.same (part parts d) (part parts c) then suc n else 0

  -- The two loops: `left` camps are still to get `place`, and then the next group starts.
  unfoldable pub places_from : Assoc A → ℕ → ℕ → ℕ → List Text → List ℕ
  unfolding run
  places_from parts place left i [] = []
  places_from parts place zero i (c ∷ cs) =
      (i + run parts c cs) ∷ places_from parts (i + run parts c cs) (run parts c cs) (suc i) cs
  places_from parts place (suc left) i (c ∷ cs) = place ∷ places_from parts place left (suc i) cs

  unfoldable pub places_avec_egalites : Assoc A → List Text → List ℕ
  unfolding places_from
  places_avec_egalites parts ordre = places_from parts 0 0 0 ordre

  -- The shares of the victories, over the camps of the order.
  unfoldable pub parts_des_victoires : Assoc ℕ → List Text → Assoc A → Assoc A
  parts_des_victoires v [] p = p
  parts_des_victoires v (c ∷ cs) p =
      parts_des_victoires v cs
        (if ltb 0 (total_of v) then insert c (S.divide (count_of v c) (total_of v)) p else p)

  -- placesDuCritere, for the victories of the mode of the criterion: none where the mode is not set.
  unfoldable pub places_du_critere : Assoc ℕ → List Text → Assoc A → Assoc ℕ × Bool
  unfolding parts_des_victoires classement_par_parts places_avec_egalites insert
  places_du_critere [] ordre parts = (placed ordre (places_avec_egalites parts ordre) [], false)
  places_du_critere (e ∷ v) ordre parts =
      let p = parts_des_victoires (e ∷ v) ordre [] in
      let o = classement_par_parts p in (placed o (places_avec_egalites p o) [], true)

  -- classementsDeLaFete, for the shares of the vote and the victories of each criterion.
  unfoldable pub classements_de_la_fete : (Critere → Assoc ℕ) → Assoc A → List Text × Assoc ℕ
  unfolding classement_par_parts places_avec_egalites places_du_critere points_du_vote
      points_du_classement
  classements_de_la_fete victoires parts =
      let ordre = classement_par_parts parts in
      let vote = points_du_vote ordre (places_avec_egalites parts ordre) [] in
      let one = λ (k : Critere) (t : Assoc ℕ).
        points_du_classement k (places_du_critere (victoires k) ordre parts).0 ordre t in
      (ordre, one tricolor (one challenge (one regular (one player_count vote))))

-- classementParPoints
abbrev pub before_points : Assoc ℕ → Text → Text → Bool
before_points total c d =
    if count_of total c == count_of total d
    then text_lt c d
    else ltb (count_of total d) (count_of total c)

unfoldable pub classement_par_points : Assoc ℕ → List Text
unfolding sort_by text_lt
classement_par_points total = sort_by (before_points total) (keys total)
