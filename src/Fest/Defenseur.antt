-- ===== src/Fest/Defenseur.antt =====
-- fest_intermede.go: the answers of the interlude, and the camp that defends, once it is frozen.
use splatoon.Base.{
  sort_by, map, subst, ℕ, ◌≡◌, refl, sym, ap, ◌∙◌, false, ◌||◌, Bool-cases, Option, none, some,
  Option-cases, List, [], ◌∷◌, ltb, ◌==◌, Text, text_eq_refl, Assoc, insert, lookup-insert, inl,
  inr, All,
}
use splatoon.Scoring.{Shares, part, classement_par_parts}
use splatoon.Fest.Intermede.{
  ComptageFest, VictoiresFest, Ecriture, ecrite, charger_victoires_locked, omise, sauvee,
  enregistrer_victoires_locked, comptage_de, figer_intermede, intermede_fige, camp_defenseur,
  parts_a_figer, rangs, honsai_midterm_de_la_fete,
}
use splatoon.Fest.Figee.{
  Evenement, EcritureLisible, vues, photo, contenu, Figee, charger_loaded, vues-loaded,
  photo-sauvee, charger-Figee,
}
use splatoon.Fest.Suites.{executer_tous, executer_tous-Figee, entiere}

module _ {ℓ} {A : Type ℓ} (S : Shares A) where
  -- What an answer of the interlude says of the state after it.
  abbrev Repond : Text → Option (Assoc A) × VictoiresFest A → Type ℓ
  Repond k (none, s') = ◌≡◌ {A = Assoc A} [] []
  Repond k (some [], s') = ◌≡◌ {A = Assoc A} [] []
  Repond k (some (r ∷ rs), s') =
      (p : Text × A) × (ps : Assoc A) × Figee k (some (p ∷ ps)) s' × (rangs S (p ∷ ps) ≡ r ∷ rs)

  ranges :
      (k : Text) (p : Text × A) (ps l : Assoc A) (s : VictoiresFest A)
      → rangs S (p ∷ ps) ≡ l
      → Figee k (some (p ∷ ps)) s
      → Repond k (some l, s)
  ranges k p ps [] s e h = refl
  ranges k p ps (r ∷ rs) s e h = (p, ps, h, e)

  rangs-Repond :
      (k : Text) (parts : Assoc A) (s : VictoiresFest A)
      → photo k (vues s) ≡ some parts
      → photo k (contenu s.fichier) ≡ omise (some parts)
      → Repond k (some (rangs S parts), s)
  unfolding classement_par_parts sort_by omise
  rangs-Repond k [] s here there = refl
  rangs-Repond k (p ∷ ps) s here there =
      ranges k p ps (rangs S (p ∷ ps)) s refl (record { en_memoire = here; sur_disque = there })

  -- The interlude of a fest that has none, over a disk that takes the write.
  module _ (k : Text) (parts : Assoc A) (s : VictoiresFest A) (free : photo k (vues s) ≡ none) where
    abbrev compte : ComptageFest A
    compte = record (comptage_de k (vues s)) { intermede = some parts }

    abbrev figee : VictoiresFest A
    figee = figer_intermede ecrite k parts s

    compte-here : photo k (insert k compte (vues s)) ≡ some parts
    compte-here = rw (photo, comptage_de, lookup-insert k k compte (vues s), text_eq_refl k) refl

    figee-here : photo k (vues figee) ≡ some parts
    unfolding figer_intermede enregistrer_victoires_locked
    figee-here =
        rw (figer_intermede, free)
          (ap (photo k) (
              vues-loaded
                (record (charger_victoires_locked s) {
                  m = insert k compte (vues s);
                  fichier = some (sauvee (insert k compte (vues s)));
                })
                (charger_loaded s))
            ∙ compte-here)

    figee-there : photo k (contenu figee.fichier) ≡ omise (some parts)
    unfolding figer_intermede enregistrer_victoires_locked
    figee-there =
        rw (figer_intermede, free)
          (photo-sauvee k (insert k compte (vues s)) ∙ ap omise compte-here)

  connue :
      (k : Text) (q : Assoc A) (s : VictoiresFest A)
      → photo k (vues s) ≡ some q
      → photo k (contenu s.fichier) ≡ some q
      → Repond k (some (rangs S q), charger_victoires_locked s)
  unfolding classement_par_parts sort_by
  connue k [] s here there = refl
  connue k (p ∷ ps) s here there =
      ranges k p ps (rangs S (p ∷ ps)) (charger_victoires_locked s) refl (
        charger-Figee k (some (p ∷ ps)) (entiere k p ps) s
          (record { en_memoire = here; sur_disque = there }))

  honsai-Repond :
      (k : Text) (mi_parcours maintenant : ℕ) (vote : Assoc A) (s : VictoiresFest A)
      → photo k (vues s) ≡ photo k (contenu s.fichier)
      → Repond k (honsai_midterm_de_la_fete S ecrite k mi_parcours maintenant vote s)
  unfolding honsai_midterm_de_la_fete intermede_fige
  honsai-Repond k mi_parcours maintenant vote s agree =
      elim (Bool-cases (mi_parcours == 0 || ltb maintenant mi_parcours)) [
        | inl early ↦ rw early refl
        | inr past ↦ elim (Option-cases (intermede_fige k s)) [
          | inl free ↦
              let parts = parts_a_figer S k vote s in
              rw (past, free, figee-here k parts s free)
                (rangs-Repond k parts (figer_intermede ecrite k parts s) (figee-here k parts s free)
                  (figee-there k parts s free))
          | inr (q, taken) ↦ rw (past, taken) (connue k q s taken (sym agree ∙ taken))
        ]
      ]

  abbrev premier : Assoc A → Text
  premier [] = []
  premier (r ∷ rs) = r.0

  head-map :
      (f : Text → A) (l : List Text)
      → premier (map (λ c. (c, f c)) l) ≡ elim l [ [] ↦ [] | c ∷ cs ↦ c ]
  head-map f [] = refl
  head-map f (c ∷ cs) = refl

  -- When a request of the interlude after mid-fest, whose write the disk takes, is answered with
  -- some camps, memory and disk agreeing on the fest's interlude before: whatever battles, ink,
  -- requests and restarts follow, as long as no write is cut off, every later request past mid-fest
  -- answers the same shares in the same order, and the first camp of that answer is the one that
  -- defends.
  pub intermede_irreversible :
      (k : Text) (mi_parcours maintenant plus_tard : ℕ) (vote autre : Assoc A) (d : Ecriture)
      (s s1 : VictoiresFest A) (r : Text × A) (rs : Assoc A) (vs : List (Evenement A))
      → photo k (vues s) ≡ photo k (contenu s.fichier)
      → honsai_midterm_de_la_fete S ecrite k mi_parcours maintenant vote s ≡ (some (r ∷ rs), s1)
      → All EcritureLisible vs
      → (mi_parcours == 0 || ltb plus_tard mi_parcours) ≡ false
      → ((honsai_midterm_de_la_fete S d k mi_parcours plus_tard autre (executer_tous S vs s1)).0
          ≡ some (r ∷ rs))
        × (camp_defenseur S k (executer_tous S vs s1) ≡ r.0)
  unfolding honsai_midterm_de_la_fete camp_defenseur intermede_fige
  intermede_irreversible k mi_parcours maintenant plus_tard vote autre d s s1 r rs vs agree call
        readable past =
      let (p, ps, first, ranked) =
        subst (Repond k) call (honsai-Repond k mi_parcours maintenant vote s agree) in
      let later = executer_tous-Figee S k p ps vs s1 readable first in
      (
        rw (past, later.en_memoire) (ap some ranked),
        rw (camp_defenseur, intermede_fige, later.en_memoire)
            (sym (head-map (part S (p ∷ ps)) (classement_par_parts S (p ∷ ps)))
              ∙ ap premier ranked),
      )
