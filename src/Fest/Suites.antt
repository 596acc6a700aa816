-- ===== src/Fest/Suites.antt =====
-- fest_intermede.go: the sequences of events that an interlude goes through.
use splatoon.Base.{
  ℕ, ◌≡◌, refl, sym, ap, ◌∙◌, false, ◌||◌, Bool-cases, Option, none, some, Option-cases, List, [],
  ◌∷◌, ltb, ◌==◌, Text, text_eq, text_eq_iff, Assoc, insert, lookup-insert, inl, inr, All,
}
use splatoon.Scoring.{Shares}
use splatoon.Fest.Intermede.{
  ComptageFest, VictoiresFest, Ecriture, charger_victoires_locked, omise, comptage_de,
  enregistrer_victoire_de_fete, enregistrer_ferveur, figer_intermede, intermede_fige, parts_a_figer,
  honsai_midterm_de_la_fete,
}
use splatoon.Fest.Figee.{
  Evenement, victoire, encrage, demande, redemarrage, Lisible, EcritureLisible, vues, photo,
  contenu, Figee, charger_loaded, charger_file, charger-Figee, enregistrer-Figee, victoire-Figee,
  encrage-Figee, restart,
}

module _ {ℓ} {A : Type ℓ} where
  -- A fest without an interlude is not the one that has it.
  photo-insert_other :
      (j k : Text) (parts : Assoc A) (c : ComptageFest A) (m : Assoc (ComptageFest A))
      → photo j m ≡ none
      → photo k m ≡ some parts
      → photo k (insert j c m) ≡ some parts
  photo-insert_other j k parts c m free here = elim (Bool-cases (text_eq j k)) [
    | inl same ↦
        absurd (none≢some (sym free ∙ (ap (λ x. photo x m) ((text_eq_iff j k).0 same) ∙ here)))
    | inr differ ↦ rw (photo, comptage_de, lookup-insert j k c m, differ) here
  ]
    where
      none≢some : {x : Assoc A} → ¬ (◌≡◌ {A = Option (Assoc A)} none (some x))
      none≢some e = cc

  module _ (k : Text) (p : Text × A) (ps : Assoc A) where
    abbrev parts : Assoc A
    parts = p ∷ ps

    abbrev pub entiere : omise (some parts) ≡ some parts
    unfolding omise
    entiere = refl

    figer_intermede-Figee :
        (d : Ecriture) (j : Text) (autres : Assoc A) (s : VictoiresFest A)
        → Lisible d
        → Figee k (some parts) s
        → Figee k (some parts) (figer_intermede d j autres s)
    unfolding figer_intermede
    figer_intermede-Figee d j autres s l h = elim (Option-cases (photo j (vues s))) [
      | inl free ↦
          rw (figer_intermede, free)
            (enregistrer-Figee k (some parts) entiere d
              (record (charger_victoires_locked s) {
                m = insert j (record (comptage_de j (vues s)) { intermede = some autres }) (vues s);
              })
              l (charger_loaded s) (photo-insert_other j k parts _ (vues s) free h.en_memoire)
              (ap (λ f. photo k (contenu f)) (charger_file s) ∙ h.sur_disque))
      | inr (q, taken) ↦ rw (figer_intermede, taken) (charger-Figee k (some parts) entiere s h)
    ]

    honsai-Figee :
        (S : Shares A) (d : Ecriture) (j : Text) (mi_parcours maintenant : ℕ) (vote : Assoc A)
        (s : VictoiresFest A)
        → Lisible d
        → Figee k (some parts) s
        → Figee k (some parts) (honsai_midterm_de_la_fete S d j mi_parcours maintenant vote s).1
    unfolding honsai_midterm_de_la_fete
    honsai-Figee S d j mi_parcours maintenant vote s l h =
        elim (Bool-cases (mi_parcours == 0 || ltb maintenant mi_parcours)) [
          | inl early ↦ rw early h
          | inr past ↦ elim (Option-cases (intermede_fige j s)) [
            | inl free ↦
                rw (past, free) (figer_intermede-Figee d j (parts_a_figer S j vote s) s l h)
            | inr (q, taken) ↦ rw (past, taken) (charger-Figee k (some parts) entiere s h)
          ]
        ]

  module _ (S : Shares A) where
    unfoldable pub executer : Evenement A → VictoiresFest A → VictoiresFest A
    unfolding enregistrer_victoire_de_fete enregistrer_ferveur honsai_midterm_de_la_fete
    executer (victoire d f camp mode) s = enregistrer_victoire_de_fete d f camp mode s
    executer (encrage d f camp encre) s = enregistrer_ferveur d f camp encre s
    executer (demande d f t u vote) s = (honsai_midterm_de_la_fete S d f t u vote s).1
    executer redemarrage s = record s { m = []; charge = false }

    unfoldable pub executer_tous : List (Evenement A) → VictoiresFest A → VictoiresFest A
    unfolding executer
    executer_tous [] s = s
    executer_tous (v ∷ vs) s = executer_tous vs (executer v s)

    module _ (k : Text) (p : Text × A) (ps : Assoc A) where
      executer-Figee :
          (v : Evenement A) (s : VictoiresFest A)
          → EcritureLisible v
          → Figee k (some (p ∷ ps)) s
          → Figee k (some (p ∷ ps)) (executer v s)
      unfolding executer
      executer-Figee (victoire d f camp mode) s l h =
          victoire-Figee k (some (p ∷ ps)) (entiere k p ps) d f camp mode s l h
      executer-Figee (encrage d f camp encre) s l h =
          encrage-Figee k (some (p ∷ ps)) (entiere k p ps) d f camp encre s l h
      executer-Figee (demande d f t u vote) s l h = honsai-Figee k p ps S d f t u vote s l h
      executer-Figee redemarrage s l h =
          restart k (some (p ∷ ps)) (entiere k p ps) s.fichier h.sur_disque

      pub executer_tous-Figee :
          (vs : List (Evenement A)) (s : VictoiresFest A)
          → All EcritureLisible vs
          → Figee k (some (p ∷ ps)) s
          → Figee k (some (p ∷ ps)) (executer_tous vs s)
      unfolding executer_tous
      executer_tous-Figee [] s l h = h
      executer_tous-Figee (v ∷ vs) s l h =
          executer_tous-Figee vs (executer v s) l.1 (executer-Figee v s l.0 h)
