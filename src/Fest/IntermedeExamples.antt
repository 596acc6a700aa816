-- ===== src/Fest/IntermedeExamples.antt =====
-- fest_intermede.go at concrete inputs: Bravo wins the battles of the first half.
use splatoon.Base.{
  ◌≡◌, refl, true, none, some, List, [], ◌∷◌, ℕ, pos, codes, Text, Assoc, lookup, insert, text_eq,
  text_lt, sort_by,
}
use splatoon.Scoring.{classement_par_parts}
use splatoon.Scoring.Examples.{percents}
use splatoon.Fest.Intermede.{
  VictoiresFest, ecrite, refusee, charger_victoires_locked, enregistrer_victoires_locked, omise,
  sauvee, enregistrer_victoire_de_fete, figer_intermede, intermede_fige, parts_des_autres,
  parts_du_compte, parts_des_victoires_de, parts_de_ferveur, parts_a_figer, camp_defenseur,
  honsai_midterm_de_la_fete,
}
use splatoon.Fest.Figee.{photo, vues, contenu, Evenement, victoire, encrage, demande, redemarrage}
use splatoon.Fest.Suites.{executer_tous}
use splatoon.Fest.Defenseur.{intermede_irreversible}

abbrev fete : Text
fete = codes "F-1"

abbrev neuf : VictoiresFest ℕ
neuf = record { m = []; charge = true; fichier = none }

-- Two battles for Bravo and one for Alpha, in one mode.
abbrev trois_batailles : VictoiresFest ℕ
trois_batailles = enregistrer_victoire_de_fete ecrite fete (codes "Bravo") (codes "1") (
    enregistrer_victoire_de_fete ecrite fete (codes "Alpha") (codes "1")
      (enregistrer_victoire_de_fete refusee fete (codes "Bravo") (codes "1") neuf))

abbrev mi_temps : Assoc ℕ
mi_temps = (codes "Bravo", 66) ∷ (codes "Alpha", 33) ∷ (codes "Charlie", 0) ∷ []

abbrev a_la_mi_temps : VictoiresFest ℕ
a_la_mi_temps = (honsai_midterm_de_la_fete percents ecrite fete 10 12 [] trois_batailles).1

photographie :
    (honsai_midterm_de_la_fete percents ecrite fete 10 12 [] trois_batailles).0 ≡ some mi_temps
unfolding honsai_midterm_de_la_fete intermede_fige figer_intermede parts_a_figer parts_de_ferveur
    parts_des_victoires_de parts_du_compte parts_des_autres enregistrer_victoire_de_fete
    enregistrer_victoires_locked charger_victoires_locked lookup insert text_eq text_lt
    classement_par_parts sort_by
photographie = refl

repondu :
    honsai_midterm_de_la_fete percents ecrite fete 10 12 [] trois_batailles
    ≡ (some mi_temps, a_la_mi_temps)
repondu = λ i. (photographie i, a_la_mi_temps)

-- Charlie then spills ink, a write is refused, and the server restarts.
abbrev ensuite : List (Evenement ℕ)
ensuite =
    encrage ecrite fete (codes "Charlie") (pos 1200)
    ∷ victoire refusee fete (codes "Charlie") (codes "2")
    ∷ redemarrage
    ∷ demande refusee fete 10 13 []
    ∷ []

accord : photo fete (vues trois_batailles) ≡ photo fete (contenu trois_batailles.fichier)
unfolding enregistrer_victoire_de_fete enregistrer_victoires_locked charger_victoires_locked sauvee
    omise lookup insert text_eq
accord = refl

intermede_irreversible_example :
    ((honsai_midterm_de_la_fete percents refusee fete 10 20 []
        (executer_tous percents ensuite a_la_mi_temps)).0
      ≡ some mi_temps)
    × (camp_defenseur percents fete (executer_tous percents ensuite a_la_mi_temps) ≡ codes "Bravo")
intermede_irreversible_example =
    intermede_irreversible percents fete 10 12 20 [] [] refusee trois_batailles a_la_mi_temps
      (codes "Bravo", 66) ((codes "Alpha", 33) ∷ (codes "Charlie", 0) ∷ []) ensuite accord repondu
      (tt, (tt, (tt, (tt, tt)))) refl
