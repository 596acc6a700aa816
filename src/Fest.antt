-- ===== src/Fest.antt =====
-- fest_genere.go, fest_duree.go, fest_phase.go: the calendar of a Splatfest of the server, from its
-- flags, and the phase of an instant.
pub mod Maison
pub mod Calendar
pub mod Phases
pub mod Entries
pub mod Kept
pub mod Choice
pub mod Names
pub mod Intermede
pub mod Figee
pub mod Suites
pub mod Defenseur
pub mod IntermedeExamples
pub mod Examples
use splatoon.Base.{
  ℕ, zero, suc, ◌+◌, ◌-◌, ◌*◌, ◌/◌, ◌%◌, ◌^◌, ◌≡◌, Bool, true, false, not, ◌&&◌, ◌||◌, Option, none,
  some, List, [], ◌∷◌, ◌++◌, if◌then◌else◌, ltb, ◌==◌, ℤ, pos, negsuc, Text, codes, is_empty,
  text_eq, to_upper, to_lower, length, get_or,
}
use splatoon.Ban.Uid.{parse_uint, format_uint}
use splatoon.Rotation.{melange, stages_connus}

-- An instant in nanoseconds since the zero time of Go, the first day of the year 1: it is not
-- negative, and Truncate rounds it down to a multiple counted from there. Its seconds are an int64.
abbrev pub seconde : ℕ
seconde = 1_000_000_000

abbrev pub epoch : ℕ
epoch = 62_135_596_800

-- creneauFest in seconds, and dureeCreneauFest
abbrev pub creneau_fest : ℕ
creneau_fest = 7200

abbrev pub duree_creneau_fest : ℕ
duree_creneau_fest = 7200 * seconde

abbrev pub jour : ℕ
jour = 86_400 * seconde

-- time.Unix(n, 0), where epoch + n is an int64: above that Go's instant wraps to one before the year 1,
-- which is no instant here.
abbrev pub instant_unix : ℕ → ℕ
instant_unix n = (epoch + n) * seconde

-- t.Unix(), at or after the epoch
abbrev pub unix : ℕ → ℕ
unix t = t / seconde - epoch

-- The last second that an instant can have, with the nanoseconds of the given one.
abbrev pub sature : ℕ → ℕ
sature t = if ltb (t / seconde) (2 ^ 63) then t else (2 ^ 63 - 1) * seconde + t % seconde

-- t.Add(time.Duration(v) * time.Second): the product is an int64, and the sum stops at the last second.
abbrev pub avance : ℕ → ℕ → ℕ
avance t v =
    let d = (v * seconde) % 2 ^ 64 in if ltb d (2 ^ 63) then sature (t + d) else t - (2 ^ 64 - d)

-- t.Weekday(), where 0 is Sunday
abbrev pub jour_de_semaine : ℕ → ℕ
jour_de_semaine t = (t / jour + 1) % 7

-- The flags of the evening, by soirFlagValeur: an absent flag is empty.
abbrev pub Drapeaux : Type 0
Drapeaux = Text → Text

-- strconv.ParseInt in base 10, for 64 bits.
negated : ℕ → ℤ
negated zero = pos 0
negated (suc n) = negsuc n

parse_signed : Bool → Text → Option ℤ
unfolding negated parse_uint
parse_signed neg s = elim (parse_uint s) [
  | none ↦ none
  | some u ↦
      if neg
      then (if ltb (2 ^ 63) u then none else some (negated u))
      else if ltb u (2 ^ 63)
      then some (pos u)
      else none
]

unfoldable pub parse_int : Text → Option ℤ
unfolding parse_signed
parse_int [] = none
parse_int (c ∷ s) =
    if c == b'-' then parse_signed true s else parse_signed false (if c == b'+' then s else c ∷ s)

-- `err == nil && n > 0`
unfoldable pub positif : Option ℤ → Option ℕ
positif none = none
positif (some (negsuc n)) = none
positif (some (pos zero)) = none
positif (some (pos (suc n))) = some (suc n)

-- The value of a flag that has one: it is present, and it is not written alone.
abbrev pub a_valeur : Text → Bool
a_valeur v = not (is_empty v || text_eq v (codes "1"))

unfoldable pub fest_maison_actif : Drapeaux → Bool
fest_maison_actif drapeaux = not (is_empty (drapeaux (codes "festmaison")))

unfoldable pub aligner_sur_creneau : ℕ → ℕ
aligner_sur_creneau t = t - t % duree_creneau_fest

-- The loop over the days: from the day of the instant, eight are enough.
unfoldable pub prochain_samedi : ℕ → ℕ → ℕ → ℕ
prochain_samedi zero maintenant j = j
prochain_samedi (suc fuel) maintenant j =
    let later = prochain_samedi fuel maintenant (j + jour) in
    if not (jour_de_semaine j == 6) || not (ltb maintenant j) then later else j

unfoldable pub debut_de_la_fete_maison : Drapeaux → ℕ → ℕ
unfolding aligner_sur_creneau prochain_samedi parse_int positif
debut_de_la_fete_maison drapeaux maintenant =
    let v = drapeaux (codes "festmaison") in
    let samedi =
      aligner_sur_creneau (prochain_samedi 8 maintenant (maintenant - maintenant % jour)) in
    if a_valeur v
    then (elim (positif (parse_int v)) [
      | some n ↦ aligner_sur_creneau (instant_unix n)
      | none ↦ samedi
    ])
    else samedi

-- n - (n % creneauFest), or one slot where that is nothing
unfoldable pub ramene : ℕ → ℕ
ramene n = if n - n % creneau_fest == 0 then creneau_fest else n - n % creneau_fest

unfoldable pub duree_de_fete : Drapeaux → Text → ℕ → ℕ
unfolding parse_int positif ramene
duree_de_fete drapeaux drapeau defaut =
    let v = drapeaux drapeau in
    if a_valeur v
    then (elim (positif (parse_int v)) [ some n ↦ ramene n | none ↦ defaut ])
    else defaut

abbrev pub fest_avant_ouverture : ℕ
fest_avant_ouverture = 662_400

abbrev pub fest_vers_mi_parcours : ℕ
fest_vers_mi_parcours = 86_400

abbrev pub fest_vers_fin : ℕ
fest_vers_fin = 172_800

abbrev pub fest_vers_cloture : ℕ
fest_vers_cloture = 180_000

unfoldable pub vers_mi_parcours : Drapeaux → ℕ
unfolding duree_de_fete
vers_mi_parcours drapeaux = duree_de_fete drapeaux (codes "festmi") fest_vers_mi_parcours

unfoldable pub vers_fin : Drapeaux → ℕ
unfolding duree_de_fete
vers_fin drapeaux = duree_de_fete drapeaux (codes "festfin") fest_vers_fin

unfoldable pub vers_cloture : Drapeaux → ℕ
unfolding duree_de_fete
vers_cloture drapeaux = duree_de_fete drapeaux (codes "festcloture") fest_vers_cloture

-- FestTimetable
pub record FestTimetable : Type 0 where
  pub open_time : ℕ
  pub start_time : ℕ
  pub mid_time : ℕ
  pub end_time : ℕ
  pub close_time : ℕ

unfoldable pub horaires : Drapeaux → ℕ → FestTimetable
unfolding vers_mi_parcours vers_fin vers_cloture
horaires drapeaux debut = record {
  open_time = debut - fest_avant_ouverture * seconde;
  start_time = debut;
  mid_time = avance debut (vers_mi_parcours drapeaux);
  end_time = avance debut (vers_fin drapeaux);
  close_time = avance debut (vers_cloture drapeaux);
}
