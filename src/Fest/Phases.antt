-- ===== src/Fest/Phases.antt =====
-- fest_genere.go, fest_phase.go: the five instants of the calendar, and the phases between them.
use splatoon.Base.{
  ℕ, ◌+◌, ◌-◌, ◌*◌, ◌/◌, ◌%◌, ◌^◌, ◌≤◌, ◌<◌, ◌≡◌, refl, sym, ap, subst, ◌∙◌, Bool, true, false,
  ◌&&◌, ◌||◌, Bool-cases, none, some, if◌then◌else◌, ltb, leb, Text, codes, inl, inr, arith,
}
use splatoon.Fest.{
  seconde, creneau_fest, duree_creneau_fest, jour, sature, avance, Drapeaux, fest_maison_actif,
  aligner_sur_creneau, debut_de_la_fete_maison, vers_mi_parcours, vers_fin, vers_cloture,
  fest_avant_ouverture, FestTimetable, horaires, fest_vers_mi_parcours, fest_vers_fin,
  fest_vers_cloture,
}
use splatoon.Fest.Maison.{
  fest_maison, Cle, cle_de_phase, phase_de_la_fete, est_en_cours, matchs_de_fete_en_cours, avant,
  annonce, premiere, seconde_moitie, attente, resultats,
}
use splatoon.Fest.Calendar.{
  duree_de_fete-Duree, date_choisie, debut_choisi, debut_du_samedi, debut_aligned,
  prochain_samedi-Samedi,
}

-- A duration that fits an int64 of nanoseconds.
abbrev pub Tient : ℕ → Type 0
Tient v = v * seconde < 2 ^ 63

-- An instant that is a whole int64 of nanoseconds before the end of the time of Go.
abbrev pub EstLoinDeLaFin : ℕ → Type 0
EstLoinDeLaFin t = t + 2 ^ 63 < 2 ^ 63 * seconde

not-sature : (t : ℕ) → t < 2 ^ 63 * seconde → sature t ≡ t
not-sature t h = let below : ltb (t / seconde) (2 ^ 63) ≡ true = ground arith in rw below refl

avance_lem : (t v : ℕ) → Tient v → EstLoinDeLaFin t → avance t v ≡ t + v * seconde
avance_lem t v h k =
    let same : (v * seconde) % 2 ^ 64 ≡ v * seconde = omega arith in
    let below : ltb (v * seconde) (2 ^ 63) ≡ true = ground arith in
    rw (same, below) (not-sature (t + v * seconde) (omega arith))

-- The five instants are on slots, and the fest opens before it starts and starts before the rest.
pub record Calendrier (t : FestTimetable) : Type 0 where
  pub open_slot : t.open_time % duree_creneau_fest ≡ 0
  pub start_slot : t.start_time % duree_creneau_fest ≡ 0
  pub mid_slot : t.mid_time % duree_creneau_fest ≡ 0
  pub end_slot : t.end_time % duree_creneau_fest ≡ 0
  pub close_slot : t.close_time % duree_creneau_fest ≡ 0
  pub opens_first : t.open_time ≤ t.start_time
  pub starts_mid : t.start_time < t.mid_time
  pub starts_end : t.start_time < t.end_time
  pub starts_close : t.start_time < t.close_time

-- An instant that is a whole number of slots after a slot.
slot_after :
    (t v : ℕ)
    → Tient v
    → EstLoinDeLaFin t
    → t % duree_creneau_fest ≡ 0
    → v % creneau_fest ≡ 0
    → 0 < v
    → (avance t v % duree_creneau_fest ≡ 0) × (t < avance t v)
slot_after t v h k a b p = rw (avance_lem t v h k) (omega arith)

-- As long as the three durations in nanoseconds fit an int64 and the start stands at least 2 ^ 63
-- nanoseconds before the last second of an int64, the five instants that festMaison serves are whole
-- slots of two hours, the fest does not open after its start, and its middle, its end and its
-- closing come after its start, whatever else the flags and the clock say.
pub fest_maison-Calendrier :
    (empreinte : Text → Text) (drapeaux : Drapeaux) (maintenant : ℕ)
    → Tient (vers_mi_parcours drapeaux)
    → Tient (vers_fin drapeaux)
    → Tient (vers_cloture drapeaux)
    → EstLoinDeLaFin (debut_de_la_fete_maison drapeaux maintenant)
    → Calendrier (fest_maison empreinte drapeaux maintenant).timetable
unfolding fest_maison horaires vers_mi_parcours vers_fin vers_cloture
fest_maison-Calendrier empreinte drapeaux maintenant mi fin cloture loin =
    let aligned = debut_aligned drapeaux maintenant in
    let d1 =
      duree_de_fete-Duree drapeaux (codes "festmi") fest_vers_mi_parcours (omega arith)
        (omega arith) in
    let d2 =
      duree_de_fete-Duree drapeaux (codes "festfin") fest_vers_fin (omega arith) (omega arith) in
    let d3 =
      duree_de_fete-Duree drapeaux (codes "festcloture") fest_vers_cloture (omega arith)
        (omega arith) in
    let debut = debut_de_la_fete_maison drapeaux maintenant in
    let (m, sm) = slot_after debut _ mi loin aligned d1.on_slot d1.positive in
    let (e, se) = slot_after debut _ fin loin aligned d2.on_slot d2.positive in
    let (c, sc) = slot_after debut _ cloture loin aligned d3.on_slot d3.positive in
    record {
      open_slot = omega arith;
      start_slot = aligned;
      mid_slot = m;
      end_slot = e;
      close_slot = c;
      opens_first = omega arith;
      starts_mid = sm;
      starts_end = se;
      starts_close = sc;
    }

sub-le : (a b : ℕ) → a - b ≤ a
sub-le a b = omega arith

est_en_cours-cle :
    (t : FestTimetable) (maintenant : ℕ)
    → t.open_time ≤ t.start_time
    → est_en_cours (some (cle_de_phase t maintenant))
      ≡ (leb t.start_time maintenant && (ltb maintenant t.mid_time || ltb maintenant t.end_time))
unfolding cle_de_phase
est_en_cours-cle t maintenant h = ground arith

opens :
    (empreinte : Text → Text) (drapeaux : Drapeaux) (maintenant : ℕ)
    → (fest_maison empreinte drapeaux maintenant).timetable.open_time
      ≤ (fest_maison empreinte drapeaux maintenant).timetable.start_time
unfolding fest_maison horaires
opens empreinte drapeaux maintenant =
    sub-le (debut_de_la_fete_maison drapeaux maintenant) 662_400_000_000_000

-- Whatever the flags and the clock, the matches run from the start to the later of the two ends.
pub matchs_de_fete_en_cours_lem :
    (empreinte : Text → Text) (drapeaux : Drapeaux) (maintenant : ℕ)
    → let t = (fest_maison empreinte drapeaux maintenant).timetable in
      matchs_de_fete_en_cours empreinte drapeaux maintenant ≡ (
        fest_maison_actif drapeaux
        && (leb t.start_time maintenant
            && (ltb maintenant t.mid_time || ltb maintenant t.end_time)))
unfolding matchs_de_fete_en_cours phase_de_la_fete
matchs_de_fete_en_cours_lem empreinte drapeaux maintenant =
    elim (Bool-cases (fest_maison_actif drapeaux)) [
      | inl active ↦ rw active (
          est_en_cours-cle (fest_maison empreinte drapeaux maintenant).timetable maintenant
            (opens empreinte drapeaux maintenant))
      | inr off ↦ rw off refl
    ]

unless-off : (b : Bool) (x c : Cle) → (if b then some x else none) ≡ some c → x ≡ c
unless-off true x c p = cc
unless-off false x c p = cc

-- The order of the phases.
unfoldable pub rang_de_cle : Cle → ℕ
rang_de_cle avant = 0
rang_de_cle annonce = 1
rang_de_cle premiere = 2
rang_de_cle seconde_moitie = 3
rang_de_cle attente = 4
rang_de_cle resultats = 5

rang-cle_de_phase :
    (t : FestTimetable) (plus_tot plus_tard : ℕ)
    → plus_tot ≤ plus_tard
    → rang_de_cle (cle_de_phase t plus_tot) ≤ rang_de_cle (cle_de_phase t plus_tard)
unfolding cle_de_phase rang_de_cle
rang-cle_de_phase t plus_tot plus_tard h = ground arith

-- With a start that is chosen, the calendar does not depend on the clock.
calendrier_fixe :
    (empreinte : Text → Text) (drapeaux : Drapeaux) (n t u : ℕ)
    → date_choisie drapeaux ≡ some n
    → (fest_maison empreinte drapeaux t).timetable ≡ (fest_maison empreinte drapeaux u).timetable
unfolding fest_maison
calendrier_fixe empreinte drapeaux n t u e =
    rw (debut_choisi drapeaux n t e, debut_choisi drapeaux n u e) refl

phase_inv :
    (empreinte : Text → Text) (drapeaux : Drapeaux) (maintenant : ℕ) (c : Cle)
    → phase_de_la_fete empreinte drapeaux maintenant ≡ some c
    → cle_de_phase (fest_maison empreinte drapeaux maintenant).timetable maintenant ≡ c
unfolding phase_de_la_fete
phase_inv empreinte drapeaux maintenant c p = unless-off (fest_maison_actif drapeaux) _ c p

-- With a start chosen in the flags, the phases of a fest come in their order: the phase of a later
-- instant is never before that of an earlier one.
pub phase_de_la_fete-monotone :
    (empreinte : Text → Text) (drapeaux : Drapeaux) (n plus_tot plus_tard : ℕ) (c d : Cle)
    → date_choisie drapeaux ≡ some n
    → plus_tot ≤ plus_tard
    → phase_de_la_fete empreinte drapeaux plus_tot ≡ some c
    → phase_de_la_fete empreinte drapeaux plus_tard ≡ some d
    → rang_de_cle c ≤ rang_de_cle d
phase_de_la_fete-monotone empreinte drapeaux n plus_tot plus_tard c d e h pc pd =
    let fixe = calendrier_fixe empreinte drapeaux n plus_tot plus_tard e in
    let c_is = phase_inv empreinte drapeaux plus_tot c pc in
    let d_is = phase_inv empreinte drapeaux plus_tard d pd in
    let t : FestTimetable = (fest_maison empreinte drapeaux plus_tard).timetable in
    subst (λ x. rang_de_cle x ≤ rang_de_cle d) (ap (λ s. cle_de_phase s plus_tot) (sym fixe) ∙ c_is)
      (subst (λ x. rang_de_cle (cle_de_phase t plus_tot) ≤ rang_de_cle x) d_is
        (rang-cle_de_phase t plus_tot plus_tard h))

cle-annonce :
    (t : FestTimetable) (maintenant : ℕ)
    → t.open_time ≤ maintenant
    → maintenant < t.start_time
    → cle_de_phase t maintenant ≡ annonce
unfolding cle_de_phase
cle-annonce t maintenant o s = ground arith

next_week :
    (maintenant s : ℕ)
    → s % jour ≡ 0
    → maintenant < s
    → s ≤ maintenant + 7 * jour
    → (aligner_sur_creneau s - fest_avant_ouverture * seconde ≤ maintenant)
      × (maintenant < aligner_sur_creneau s)
unfolding aligner_sur_creneau
next_week maintenant s d l w = omega arith

samedi_opened :
    (empreinte : Text → Text) (drapeaux : Drapeaux) (maintenant : ℕ)
    → date_choisie drapeaux ≡ none
    → ((fest_maison empreinte drapeaux maintenant).timetable.open_time ≤ maintenant)
      × (maintenant < (fest_maison empreinte drapeaux maintenant).timetable.start_time)
unfolding fest_maison horaires
samedi_opened empreinte drapeaux maintenant none_chosen =
    let (day, _, later, week) = prochain_samedi-Samedi maintenant in
    rw (debut_du_samedi drapeaux maintenant none_chosen) (next_week maintenant _ day later week)

-- When a fest is served and the flag gives no start that is a positive number, the phase is the
-- announcement at every instant: the start is always the next Saturday, so the fest never begins.
pub festmaison_seul :
    (empreinte : Text → Text) (drapeaux : Drapeaux) (maintenant : ℕ)
    → fest_maison_actif drapeaux ≡ true
    → date_choisie drapeaux ≡ none
    → phase_de_la_fete empreinte drapeaux maintenant ≡ some annonce
unfolding phase_de_la_fete
festmaison_seul empreinte drapeaux maintenant active none_chosen = rw active (
    ap some (
      cle-annonce (fest_maison empreinte drapeaux maintenant).timetable maintenant
        (samedi_opened empreinte drapeaux maintenant none_chosen).0
        (samedi_opened empreinte drapeaux maintenant none_chosen).1))
