-- ===== src/Fest/Intermede.antt =====
-- fest_intermede.go: the battles and the ink of each camp, and the interlude that they decide.
use splatoon.Base.{
  ℕ, Bool, true, ◌||◌, Option, none, some, List, [], ◌∷◌, map, if◌then◌else◌, ltb, ◌==◌, ℤ, Text,
  codes, is_empty, Assoc, lookup, insert,
}
use splatoon.Fest.{positif}
use splatoon.Scoring.{Shares, total_of, count_of, add_points, classement_par_parts, part}

-- A count stays under 2 ^ 63. A map of the first three that is nil is empty here.
pub record ComptageFest {ℓ} (A : Type ℓ) : Type ℓ where
  pub victoires : Assoc ℕ
  pub ferveur : Assoc ℕ
  pub par_mode : Assoc (Assoc ℕ)
  pub intermede : Option (Assoc A)

-- victoiresFest, with its file: what reading and decoding it gives.
pub record VictoiresFest {ℓ} (A : Type ℓ) : Type ℓ where
  pub m : Assoc (ComptageFest A)
  pub charge : Bool
  pub fichier : Option (Assoc (ComptageFest A))

-- What the disk makes of a write: all of it, nothing, or a beginning, which is no JSON document.
pub data Ecriture : Type 0 where
  ecrite refusee tronquee : Ecriture

abbrev pub camps_canoniques : List Text
camps_canoniques = codes "Alpha" ∷ codes "Bravo" ∷ codes "Charlie" ∷ []

abbrev pub du_mode : Text → Assoc (Assoc ℕ) → Assoc ℕ
du_mode mode m = elim (lookup mode m) [ none ↦ [] | some c ↦ c ]

module _ {ℓ} {A : Type ℓ} where
  unfoldable pub charger_victoires_locked : VictoiresFest A → VictoiresFest A
  charger_victoires_locked s = if s.charge then s else (elim s.fichier [
    | none ↦ record s { charge = true }
    | some f ↦ record s { m = f; charge = true }
  ])

  -- An interlude without a camp is omitted.
  unfoldable pub omise : Option (Assoc A) → Option (Assoc A)
  omise none = none
  omise (some []) = none
  omise (some (p ∷ ps)) = some (p ∷ ps)

  unfoldable pub sauvee : Assoc (ComptageFest A) → Assoc (ComptageFest A)
  unfolding omise
  sauvee [] = []
  sauvee ((k, c) ∷ m) = (k, record c { intermede = omise c.intermede }) ∷ sauvee m

  unfoldable pub enregistrer_victoires_locked : Ecriture → VictoiresFest A → VictoiresFest A
  unfolding sauvee
  enregistrer_victoires_locked ecrite s = record s { fichier = some (sauvee s.m) }
  enregistrer_victoires_locked refusee s = s
  enregistrer_victoires_locked tronquee s = record s { fichier = none }

  abbrev pub comptage_de : Text → Assoc (ComptageFest A) → ComptageFest A
  comptage_de fest_id m = elim (lookup fest_id m) [
    | none ↦ record { victoires = []; ferveur = []; par_mode = []; intermede = none }
    | some c ↦ c
  ]

  -- The count of the fest is replaced, and saved.
  abbrev pub noter : Ecriture → Text → ComptageFest A → VictoiresFest A → VictoiresFest A
  noter d fest_id c s = enregistrer_victoires_locked d (record s { m = insert fest_id c s.m })

  unfoldable pub enregistrer_victoire_de_fete :
      Ecriture → Text → Text → Text → VictoiresFest A → VictoiresFest A
  unfolding charger_victoires_locked enregistrer_victoires_locked insert lookup
  enregistrer_victoire_de_fete d fest_id camp mode s =
      let s1 = charger_victoires_locked s in
      let c = comptage_de fest_id s1.m in
      if is_empty fest_id || is_empty camp
      then s
      else noter d fest_id
          (record c {
            victoires = add_points camp 1 c.victoires;
            par_mode =
                if is_empty mode
                then c.par_mode
                else insert mode (add_points camp 1 (du_mode mode c.par_mode)) c.par_mode;
          })
          s1

  unfoldable pub enregistrer_ferveur :
      Ecriture → Text → Text → ℤ → VictoiresFest A → VictoiresFest A
  unfolding charger_victoires_locked enregistrer_victoires_locked insert lookup positif
  enregistrer_ferveur d fest_id camp encre s =
      let s1 = charger_victoires_locked s in
      let c = comptage_de fest_id s1.m in
      if is_empty fest_id || is_empty camp then s else (elim (positif (some encre)) [
        | none ↦ s
        | some n ↦ noter d fest_id (record c { ferveur = add_points camp n c.ferveur }) s1
      ])

  unfoldable pub figer_intermede : Ecriture → Text → Assoc A → VictoiresFest A → VictoiresFest A
  unfolding charger_victoires_locked enregistrer_victoires_locked insert lookup
  figer_intermede d fest_id parts s =
      let s1 = charger_victoires_locked s in
      let c = comptage_de fest_id s1.m in
      elim c.intermede [
        | some p ↦ s1
        | none ↦ noter d fest_id (record c { intermede = some parts }) s1
      ]

  unfoldable pub intermede_fige : Text → VictoiresFest A → Option (Assoc A)
  unfolding charger_victoires_locked lookup
  intermede_fige fest_id s = (comptage_de fest_id (charger_victoires_locked s).m).intermede

  module _ (S : Shares A) where
    -- The camps that have a count without a share yet.
    unfoldable pub parts_des_autres : ℕ → Assoc ℕ → Assoc A → Assoc A
    unfolding insert lookup
    parts_des_autres total [] parts = parts
    parts_des_autres total ((camp, n) ∷ compte) parts =
        parts_des_autres total compte (elim (lookup camp parts) [
          | none ↦ insert camp (S.divide n total) parts
          | some vu ↦ parts
        ])

    -- The shares of a count, where it is not of zero: the canonical camps first.
    unfoldable pub parts_du_compte : Assoc ℕ → Option (Assoc A)
    unfolding parts_des_autres lookup
    parts_du_compte compte =
        let total = total_of compte in
        let of : Text → Text × A = λ camp. (camp, S.divide (count_of compte camp) total) in
        if total == 0 then none else some (parts_des_autres total compte (map of camps_canoniques))

    unfoldable pub parts_des_victoires_de : Text → VictoiresFest A → Option (Assoc A)
    unfolding charger_victoires_locked lookup parts_du_compte
    parts_des_victoires_de fest_id s =
        parts_du_compte (comptage_de fest_id (charger_victoires_locked s).m).victoires

    unfoldable pub parts_de_ferveur : Text → VictoiresFest A → Option (Assoc A)
    unfolding charger_victoires_locked lookup parts_du_compte
    parts_de_ferveur fest_id s =
        parts_du_compte (comptage_de fest_id (charger_victoires_locked s).m).ferveur

    unfoldable pub camp_defenseur : Text → VictoiresFest A → Text
    unfolding intermede_fige classement_par_parts
    camp_defenseur fest_id s = elim (intermede_fige fest_id s) [
      | none ↦ []
      | some parts ↦ elim (classement_par_parts S parts) [ [] ↦ [] | camp ∷ camps ↦ camp ]
    ]

    -- The shares to freeze: of the ink, else of the victories, else of the vote.
    unfoldable pub parts_a_figer : Text → Assoc A → VictoiresFest A → Assoc A
    unfolding parts_de_ferveur parts_des_victoires_de
    parts_a_figer fest_id vote s = elim (parts_de_ferveur fest_id s) [
      | some p ↦ p
      | none ↦ elim (parts_des_victoires_de fest_id s) [ some p ↦ p | none ↦ vote ]
    ]

    abbrev pub rangs : Assoc A → Assoc A
    rangs parts = map (λ camp. (camp, part S parts camp)) (classement_par_parts S parts)

    abbrev pub rangs_figes : Option (Assoc A) → Option (Assoc A)
    rangs_figes none = some []
    rangs_figes (some parts) = some (rangs parts)

    -- For the instant of the middle, 0 where it is not set, the present one, and the shares of the
    -- vote, which is of one camp at least: honsai_midterm, and the state.
    unfoldable pub honsai_midterm_de_la_fete :
        Ecriture → Text → ℕ → ℕ → Assoc A → VictoiresFest A → Option (Assoc A) × VictoiresFest A
    unfolding intermede_fige parts_a_figer figer_intermede charger_victoires_locked
        classement_par_parts
    honsai_midterm_de_la_fete d fest_id mi_parcours maintenant vote s =
        if mi_parcours == 0 || ltb maintenant mi_parcours
        then (none, s)
        else (elim (intermede_fige fest_id s) [
          | some parts ↦ (some (rangs parts), charger_victoires_locked s)
          | none ↦
              let s' = figer_intermede d fest_id (parts_a_figer fest_id vote s) s in
              (rangs_figes (intermede_fige fest_id s'), s')
        ])
