-- ===== src/Fest/Maison.antt =====
-- fest_genere.go, fest_phase.go, fest_cloture.go: the FestSchedule that festMaison serves, and the
-- phase of an instant.
use splatoon.Base.{
  ℕ, ◌+◌, ◌-◌, ◌*◌, ◌/◌, ◌%◌, Bool, true, false, not, ◌&&◌, ◌||◌, Option, none, some, List, [], ◌∷◌,
  ◌++◌, map, if◌then◌else◌, ltb, leb, ◌==◌, pos, Text, codes, to_upper, to_lower, length, get_or,
}
use splatoon.Rotation.{melange, stages_connus}
use splatoon.Fest.{
  seconde, unix, Drapeaux, a_valeur, fest_maison_actif, debut_de_la_fete_maison, FestTimetable,
  horaires, fest_avant_ouverture,
}

abbrev pub npn_tenant : Text
npn_tenant = codes "tenants/t-dce9377b-lp1"

abbrev pub fest_avant_publie : ℕ
fest_avant_publie = 25_200

abbrev pub fest_duree_publiee : ℕ
fest_duree_publiee = 3_628_800

abbrev pub fest_regions : List Text
fest_regions = codes "JP" ∷ codes "US" ∷ codes "EU" ∷ codes "AP" ∷ []

-- %05d
abbrev pub cinq_chiffres : ℕ → Text
cinq_chiffres n =
    (48 + n / 10000 % 10)
    ∷ (48 + n / 1000 % 10)
    ∷ (48 + n / 100 % 10)
    ∷ (48 + n / 10 % 10)
    ∷ (48 + n % 10)
    ∷ []

unfoldable pub identifiant_de_fete_maison : Drapeaux → ℕ → Text
identifiant_de_fete_maison drapeaux debut =
    let v = drapeaux (codes "festid") in
    if a_valeur v then to_upper v else codes "NXTD-" ++ cinq_chiffres (unix debut / 86400 % 100000)

abbrev pub est_hexa : ℕ → Bool
est_hexa c = (leb 48 c && leb c 57) || (leb 97 c && leb c 102) || (leb 65 c && leb c 70)

abbrev pub tous : (ℕ → Bool) → Text → Bool
tous p [] = true
tous p (c ∷ s) = p c && tous p s

-- `empreinte` is the SHA-1 of a text in hexadecimal.
unfoldable pub empreinte_de_fete_maison : (Text → Text) → Drapeaux → Text → Text → Text
empreinte_de_fete_maison empreinte drapeaux id ressource =
    let v = drapeaux (codes "festrevision") in
    if length v == 40 && tous est_hexa v
    then to_lower v
    else empreinte (codes "nextendo/fest/" ++ (id ++ (codes "/" ++ ressource)))

unfoldable pub ressource_de_fete_maison : Drapeaux → Text → Text
ressource_de_fete_maison drapeaux id =
    let v = drapeaux (codes "festressource") in if a_valeur v then to_lower v else to_lower id

-- The positions of the two stages, and the second steps over the first.
unfoldable pub rangs_tricolores : ℕ → ℕ × ℕ
unfolding melange
rangs_tricolores debut =
    let a = melange (pos (unix debut)) 0x7E57 % length stages_connus in
    let b = melange (pos (unix debut)) 0xF00D % (length stages_connus - 1) in
    (a, if leb a b then b + 1 else b)

-- The table has stages enough.
unfoldable pub stages_tricolores_maison : ℕ → List ℕ
unfolding rangs_tricolores
stages_tricolores_maison debut =
    let r = rangs_tricolores debut in get_or stages_connus r.0 0 ∷ get_or stages_connus r.1 0 ∷ []

pub record FestPublishment : Type 0 where
  pub start_time : ℕ
  pub end_time : ℕ

pub record FestSchedule : Type 0 where
  pub name : Text
  pub fest : Text
  pub regions : List Text
  pub target : Text
  pub fest_game_data : Text
  pub fest_game_data_revision : Text
  pub timetable : FestTimetable
  pub publishments : List (Text × FestPublishment)
  pub tricolor_stages : List ℕ

unfoldable pub fest_maison : (Text → Text) → Drapeaux → ℕ → FestSchedule
unfolding debut_de_la_fete_maison identifiant_de_fete_maison ressource_de_fete_maison
    empreinte_de_fete_maison stages_tricolores_maison horaires
fest_maison empreinte drapeaux maintenant =
    let debut = debut_de_la_fete_maison drapeaux maintenant in
    let id = identifiant_de_fete_maison drapeaux debut in
    let ressource = ressource_de_fete_maison drapeaux id in
    let ouverture = debut - fest_avant_ouverture * seconde in
    let publie_de = ouverture - fest_avant_publie * seconde in
    let publie_a = publie_de + fest_duree_publiee * seconde in
    record {
      name = npn_tenant ++ (codes "/festSchedules/" ++ id);
      fest = npn_tenant ++ (codes "/fests/" ++ id);
      regions = fest_regions;
      target = codes "default";
      fest_game_data = ressource;
      fest_game_data_revision = empreinte_de_fete_maison empreinte drapeaux id ressource;
      timetable = horaires drapeaux debut;
      publishments =
          map (λ r. (r, record { start_time = publie_de; end_time = publie_a })) fest_regions;
      tricolor_stages = stages_tricolores_maison debut;
    }

-- phaseFest.Cle
pub data Cle : Type 0 where
  avant annonce premiere seconde_moitie attente resultats : Cle

unfoldable pub cle_de_phase : FestTimetable → ℕ → Cle
cle_de_phase t maintenant =
    if ltb maintenant t.open_time
    then avant
    else if ltb maintenant t.start_time
    then annonce
    else if ltb maintenant t.mid_time
    then premiere
    else if ltb maintenant t.end_time
    then seconde_moitie
    else if ltb maintenant t.close_time
    then attente
    else resultats

unfoldable pub phase_de_la_fete : (Text → Text) → Drapeaux → ℕ → Option Cle
unfolding fest_maison cle_de_phase fest_maison_actif
phase_de_la_fete empreinte drapeaux maintenant =
    if fest_maison_actif drapeaux
    then some (cle_de_phase (fest_maison empreinte drapeaux maintenant).timetable maintenant)
    else none

abbrev pub est_en_cours : Option Cle → Bool
est_en_cours (some premiere) = true
est_en_cours (some seconde_moitie) = true
est_en_cours _ = false

unfoldable pub matchs_de_fete_en_cours : (Text → Text) → Drapeaux → ℕ → Bool
unfolding phase_de_la_fete
matchs_de_fete_en_cours empreinte drapeaux maintenant =
    est_en_cours (phase_de_la_fete empreinte drapeaux maintenant)

unfoldable pub resultats_ouverts : (Text → Text) → Drapeaux → ℕ → Bool
unfolding fest_maison fest_maison_actif
resultats_ouverts empreinte drapeaux maintenant =
    fest_maison_actif drapeaux
    && not (ltb maintenant (fest_maison empreinte drapeaux maintenant).timetable.close_time)

unfoldable pub fete_en_cours : (Text → Text) → Drapeaux → ℕ → Bool
unfolding fest_maison fest_maison_actif
fete_en_cours empreinte drapeaux maintenant =
    fest_maison_actif drapeaux
    && ltb maintenant (fest_maison empreinte drapeaux maintenant).timetable.close_time
