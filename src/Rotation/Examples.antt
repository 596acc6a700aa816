-- ===== src/Rotation/Examples.antt =====
-- rotation_generee.go: the theorems at concrete slots.
use splatoon.Base.{◌≡◌, refl, false, none, [], ◌∷◌, codes, pos, All, arith}
use splatoon.Rotation.{mem, rang_de, tire_stages}
use splatoon.Rotation.Draw.{tire_stages-take}
use splatoon.Rotation.Schedule.{SelectVsSchedulesResponse, phase_de, rotation_engendree}
use splatoon.Rotation.Schedule.Phases.{IsPhase, stages_of, phase_de-IsPhase}
use splatoon.Rotation.Schedule.Sequence.{
  IsSchedule, consecutive_phases, rotation_engendree-IsSchedule,
}

second_rank : rang_de (pos 247196) ≡ 1
unfolding rang_de
second_rank = refl

phase_de-IsPhase_example : IsPhase (pos 247196) (phase_de none (pos 247196))
phase_de-IsPhase_example = phase_de-IsPhase none (pos 247196)

consecutive_phases_example :
    All
      (λ v. mem v (stages_of (phase_de none (pos 247196))) ≡ false)
      (stages_of (phase_de none (pos 247197)))
consecutive_phases_example = consecutive_phases none (pos 247196) (omega (arith, second_rank))

abbrev modele : SelectVsSchedulesResponse
modele = record { unk = false; etag = codes "e"; schedules = [] }

rotation_engendree-IsSchedule_example :
    IsSchedule 1779811200 (rotation_engendree (pos 1779811200) modele)
rotation_engendree-IsSchedule_example = rotation_engendree-IsSchedule 1779811200 modele

tire_stages-take_example : tire_stages (7 ∷ 3 ∷ 9 ∷ 4 ∷ []) (3 ∷ []) ≡ (7 ∷ 9 ∷ [], 3 ∷ 7 ∷ 9 ∷ [])
tire_stages-take_example =
    tire_stages-take (7 ∷ 3 ∷ 9 ∷ 4 ∷ []) (3 ∷ []) (ground arith) (omega arith)
