-- ===== src/Fest/Examples.antt =====
-- fest_genere.go, fest_phase.go, fest_entries.go at concrete inputs.
use splatoon.Base.{
  ◌≤◌, ◌≡◌, refl, true, false, if◌then◌else◌, none, some, List, [], ◌∷◌, Text, codes, text_eq,
  lookup, insert, arith, ◌∙◌, sym, All,
}
use splatoon.Fest.{
  Drapeaux, instant_unix, parse_int, positif, ramene, duree_de_fete, vers_mi_parcours, vers_fin,
  vers_cloture, aligner_sur_creneau, debut_de_la_fete_maison, horaires, fest_maison_actif,
}
use splatoon.Fest.Maison.{
  npn_tenant, fest_maison, cle_de_phase, phase_de_la_fete, annonce, premiere,
}
use splatoon.Fest.Calendar.{date_choisie, duree_choisie, Duree, duree_de_fete-Duree}
use splatoon.Fest.Phases.{
  Calendrier, fest_maison-Calendrier, rang_de_cle, phase_de_la_fete-monotone, festmaison_seul,
}
use splatoon.Fest.Entries.{
  EntreeFest, segments, est_collection, EntreesFest, Appel, FestEntry, Reponse, entree,
  charger_entrees_fest_locked, enregistrer_entrees_fest_locked, segments_from, fest_id_from,
  fest_id_du_chemin, nom_entree_fest, cle, inscrire, get_fest_entry, create_fest_entry,
}
use splatoon.Fest.Kept.{Evenement, inscription, redemarrage, executer_tous}
use splatoon.Fest.Choice.{choix_irreversible}
use splatoon.Fest.Names.{fest_id_du_chemin-nom_entree_fest, SansBarre}

-- A fest that starts on 2026-08-24 at 00:00:10, with a first half of a little more than ten hours.
abbrev regle : Drapeaux
regle nom =
    if text_eq nom (codes "festmaison")
    then codes "1787529610"
    else if text_eq nom (codes "festmi")
    then codes "36100"
    else []

-- The flag alone.
abbrev seul : Drapeaux
seul nom = if text_eq nom (codes "festmaison") then codes "1" else []

abbrev sans_empreinte : Text → Text
sans_empreinte t = []

date_lue : date_choisie regle ≡ some 1_787_529_610
unfolding date_choisie parse_int positif text_eq
date_lue = refl

mi_lue : vers_mi_parcours regle ≡ 36_000
unfolding vers_mi_parcours duree_de_fete parse_int positif ramene text_eq
mi_lue = refl

fin_lue : vers_fin regle ≡ 172_800
unfolding vers_fin duree_de_fete parse_int positif ramene text_eq
fin_lue = refl

cloture_lue : vers_cloture regle ≡ 180_000
unfolding vers_cloture duree_de_fete parse_int positif ramene text_eq
cloture_lue = refl

en_premiere : phase_de_la_fete sans_empreinte regle (instant_unix 1_787_540_000) ≡ some premiere
unfolding phase_de_la_fete fest_maison horaires vers_mi_parcours vers_fin vers_cloture duree_de_fete
    parse_int positif ramene cle_de_phase debut_de_la_fete_maison fest_maison_actif
    aligner_sur_creneau text_eq
en_premiere = refl

en_annonce : phase_de_la_fete sans_empreinte regle (instant_unix 1_787_500_000) ≡ some annonce
unfolding phase_de_la_fete fest_maison horaires vers_mi_parcours vers_fin vers_cloture duree_de_fete
    parse_int positif ramene cle_de_phase debut_de_la_fete_maison fest_maison_actif
    aligner_sur_creneau text_eq
en_annonce = refl

debut_lu : debut_de_la_fete_maison regle (instant_unix 1_787_540_000) ≡ 63923126400000000000
unfolding debut_de_la_fete_maison parse_int positif aligner_sur_creneau text_eq
debut_lu = refl

fest_maison-Calendrier_example :
    Calendrier (fest_maison sans_empreinte regle (instant_unix 1_787_540_000)).timetable
fest_maison-Calendrier_example =
    fest_maison-Calendrier sans_empreinte regle (instant_unix 1_787_540_000)
      (rw mi_lue (omega arith)) (rw fin_lue (omega arith)) (rw cloture_lue (omega arith))
      (rw debut_lu (omega arith))

phase_de_la_fete-monotone_example : rang_de_cle annonce ≤ rang_de_cle premiere
phase_de_la_fete-monotone_example =
    phase_de_la_fete-monotone sans_empreinte regle 1_787_529_610 (instant_unix 1_787_500_000)
      (instant_unix 1_787_540_000) annonce premiere date_lue (omega arith) en_annonce en_premiere

seul_active : fest_maison_actif seul ≡ true
unfolding fest_maison_actif text_eq
seul_active = refl

seul_sans_date : date_choisie seul ≡ none
unfolding date_choisie text_eq
seul_sans_date = refl

festmaison_seul_example :
    phase_de_la_fete sans_empreinte seul (instant_unix 1_787_540_000) ≡ some annonce
festmaison_seul_example =
    festmaison_seul sans_empreinte seul (instant_unix 1_787_540_000) seul_active seul_sans_date

duree_de_fete-Duree_example :
    Duree
      (duree_choisie regle (codes "festmi"))
      86_400
      (duree_de_fete regle (codes "festmi") 86_400)
duree_de_fete-Duree_example =
    duree_de_fete-Duree regle (codes "festmi") 86_400 (omega arith) (omega arith)

abbrev alice : Appel
alice = record {
  festequipes = true;
  uid = codes "u-alice";
  tenant = [];
  pid = 7;
  maintenant = 1_787_540_000;
  disque = true;
}

abbrev vide : EntreesFest
vide = record { m = []; charge = false; dossier = true; fichier = none }

abbrev parent : Text
parent = codes "tenants/current/fests/JUEA-00107"

abbrev inscrite : FestEntry
inscrite = record {
  name = codes "tenants/t-dce9377b-lp1/fests/JUEA-00107/entries/u-alice";
  fest_team = codes "Bravo";
  fest_region = codes "EU";
}

abbrev apres : EntreesFest
apres =
    let entrees =
      (
        codes "JUEA-00107/u-alice",
        record { equipe = codes "Bravo"; region = codes "EU"; pid = 7; vote = 1_787_540_000 },
      )
      ∷ [] in
    record { m = entrees; charge = true; dossier = true; fichier = some entrees }

s_inscrit :
    create_fest_entry alice parent (codes "Bravo") (codes "EU") vide ≡ (entree inscrite, apres)
unfolding create_fest_entry fest_id_du_chemin fest_id_from segments_from charger_entrees_fest_locked
    lookup inscrire insert enregistrer_entrees_fest_locked nom_entree_fest text_eq
s_inscrit = refl

rien_d_inscrit :
    lookup (cle (fest_id_du_chemin parent) alice.uid) (charger_entrees_fest_locked vide).m ≡ none
unfolding charger_entrees_fest_locked lookup
rien_d_inscrit = refl

rien_sur_disque : lookup {V = EntreeFest} (cle (fest_id_du_chemin parent) alice.uid) [] ≡ none
unfolding lookup
rien_sur_disque = refl

-- A restart, and a second choice, of the other camp.
abbrev ensuite : List Evenement
ensuite = redemarrage ∷ inscription alice parent (codes "Alpha") (codes "EU") ∷ []

meme_fete :
    fest_id_du_chemin (codes "tenants/current/fests/JUEA-00107/entries/current")
    ≡ fest_id_du_chemin parent
unfolding fest_id_du_chemin fest_id_from segments_from text_eq
meme_fete = refl

choix_irreversible_example :
    let s2 = executer_tous ensuite apres in
    let nom : Text = codes "tenants/current/fests/JUEA-00107/entries/current" in
    let nommee : Reponse = entree (record {
      name = nom_entree_fest npn_tenant (fest_id_du_chemin nom) (codes "u-alice");
      fest_team = codes "Bravo";
      fest_region = codes "EU";
    }) in
    ((get_fest_entry alice nom s2).0 ≡ nommee)
    × ((create_fest_entry alice nom (codes "Charlie") (codes "JP") s2).0 ≡ nommee)
choix_irreversible_example =
    choix_irreversible alice alice parent (codes "tenants/current/fests/JUEA-00107/entries/current")
      (codes "Bravo") (codes "EU") (codes "Charlie") (codes "JP") vide apres inscrite ensuite refl
      (rien_d_inscrit ∙ sym rien_sur_disque) s_inscrit refl refl meme_fete refl

npn_tenant_passed : All (λ s. est_collection s ≡ false) (segments npn_tenant)
unfolding segments_from text_eq
npn_tenant_passed = (refl, (refl, tt))

sans_barre : SansBarre (codes "JUEA-00107")
sans_barre = (refl, (refl, (refl, (refl, (refl, (refl, (refl, (refl, (refl, (refl, tt))))))))))

fest_id_du_chemin-nom_entree_fest_example :
    fest_id_du_chemin (nom_entree_fest npn_tenant (codes "JUEA-00107") (codes "u-alice"))
    ≡ codes "JUEA-00107"
fest_id_du_chemin-nom_entree_fest_example =
    fest_id_du_chemin-nom_entree_fest npn_tenant (codes "JUEA-00107") (codes "u-alice")
      npn_tenant_passed sans_barre
