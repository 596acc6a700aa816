-- ===== src/Rotation/Schedule.antt =====
-- rotation_generee.go, rotationEngendree: twelve phases around an instant.
pub mod Phases
pub mod Sequence
use splatoon.Base.{
  ℕ, zero, suc, ◌+◌, ◌-◌, ◌*◌, Bool, true, false, Option, none, some, List, [], ◌∷◌, ◌++◌,
  if◌then◌else◌, leb, ℤ, pos, negsuc, Text, last_index_byte, get_or, take,
}
use splatoon.Rotation.{
  negative, pred, succ, rotation_period, phases_engendrees, creneau_de, melange_stages, tire_stages,
  regles_du_creneau, stages_du_creneau, identifiant_de_phase,
}

-- The messages of the toyohr service that make up a schedule. The fields unk4 and unk5 are copied as
-- they are, and stand as their encoding.
pub record RegularSettings : Type 0 where
  pub stages : List ℕ

pub record RankedSettings : Type 0 where
  pub rule : ℕ
  pub stages : List ℕ

pub record LeagueSettings : Type 0 where
  pub rule : ℕ
  pub stages : List ℕ
  pub unk1 : ℤ
  pub unk4 : Option Text
  pub unk5 : Option Text

-- start_time and end_time in seconds since the epoch.
pub record VsSchedule : Type 0 where
  pub name : Text
  pub start_time : ℤ
  pub end_time : ℤ
  pub regular : RegularSettings
  pub bankara : List RankedSettings
  pub x : RankedSettings
  pub league : Option LeagueSettings
  pub schedule_set_id : Text

pub record SelectVsSchedulesResponse : Type 0 where
  pub unk : Bool
  pub etag : Text
  pub schedules : List VsSchedule

-- time.Unix(c*7200, 0), in seconds
unfoldable pub debut_de : ℤ → ℤ
debut_de (pos n) = pos (n * rotation_period)
debut_de (negsuc n) = negative (suc n * rotation_period)

-- Time.Add
unfoldable pub add_seconds : ℤ → ℕ → ℤ
add_seconds (pos a) d = pos (a + d)
add_seconds (negsuc a) d = if leb (suc a) d then pos (d - suc a) else negsuc (a - d)

-- A getter of a nil template gives the zero value.
abbrev gabarit_name : Option VsSchedule → Text
gabarit_name none = []
gabarit_name (some g) = g.name

abbrev gabarit_set : Option VsSchedule → Text
gabarit_set none = []
gabarit_set (some g) = g.schedule_set_id

abbrev pub gabarit_league : Option VsSchedule → Option LeagueSettings
gabarit_league none = none
gabarit_league (some g) = g.league

unfoldable pub nom_de_phase : Text → ℤ → Text
unfolding last_index_byte identifiant_de_phase
nom_de_phase nom c = elim (last_index_byte nom b'/') [
  | none ↦ nom
  | some i ↦ take (i + 1) nom ++ identifiant_de_phase c
]

unfoldable pub league_de : Option LeagueSettings → ℕ → List ℕ → LeagueSettings
league_de none rule stages = record {
  rule = rule;
  stages = stages;
  unk1 = pos 0;
  unk4 = none;
  unk5 = none;
}
league_de (some g) rule stages = record {
  rule = rule;
  stages = stages;
  unk1 = g.unk1;
  unk4 = g.unk4;
  unk5 = g.unk5;
}

-- A phase for an order of the stages, the rules and the stages of the slot before. The draws follow
-- the order of the fields, each with the exclusions that the last one left.
unfoldable pub phase_with : Option VsSchedule → ℤ → List ℕ → List ℕ → List ℕ → VsSchedule
unfolding tire_stages nom_de_phase debut_de add_seconds league_de
phase_with gabarit c ordre regles exclus =
    let regular = tire_stages ordre exclus in
    let bankara0 = tire_stages ordre regular.1 in
    let bankara1 = tire_stages ordre bankara0.1 in
    let x = tire_stages ordre bankara1.1 in
    let league = tire_stages ordre x.1 in
    record {
      name = nom_de_phase (gabarit_name gabarit) c;
      start_time = debut_de c;
      end_time = add_seconds (debut_de c) rotation_period;
      regular = record { stages = regular.0 };
      bankara =
          record { rule = get_or regles 0 0; stages = bankara0.0 }
          ∷ record { rule = get_or regles 1 0; stages = bankara1.0 }
          ∷ [];
      x = record { rule = get_or regles 2 0; stages = x.0 };
      league = some (league_de (gabarit_league gabarit) (get_or regles 3 0) league.0);
      schedule_set_id = gabarit_set gabarit;
    }

abbrev pub phase_de : Option VsSchedule → ℤ → VsSchedule
phase_de gabarit c =
    phase_with gabarit c (melange_stages c) (regles_du_creneau c) (stages_du_creneau (pred c))

unfoldable pub phases_from : Option VsSchedule → ℕ → ℤ → List VsSchedule
unfolding phase_with melange_stages regles_du_creneau stages_du_creneau
phases_from gabarit zero c = []
phases_from gabarit (suc n) c = phase_de gabarit c ∷ phases_from gabarit n (succ c)

abbrev pub first_schedule : List VsSchedule → Option VsSchedule
first_schedule [] = none
first_schedule (s ∷ ss) = some s

unfoldable pub rotation_engendree : ℤ → SelectVsSchedulesResponse → SelectVsSchedulesResponse
unfolding phases_from creneau_de
rotation_engendree maintenant modele = record {
  unk = modele.unk;
  etag = modele.etag;
  schedules =
      phases_from (first_schedule modele.schedules) phases_engendrees
        (pred (creneau_de maintenant));
}
