-- ===== src/Rotation/Bounds.antt =====
-- rotation_generee.go, tireStages: how many stages a draw gives.
use splatoon.Base.{
  ℕ, ◌≤◌, inl, inr, List, [], ◌∷◌, ◌++◌, ◌==◌, length, length-append, Bool-cases, arith,
}
use splatoon.Rotation.{mem, pick, fill, tire_stages}

pick-le : (ordre out exclus : List ℕ) → length out ≤ 2 → length (pick ordre out exclus).0 ≤ 2
unfolding pick
pick-le [] out exclus h = h
pick-le (v ∷ vs) out exclus h = elim (Bool-cases (length out == 2)) [
  | inl full ↦ rw full h
  | inr more ↦ elim (Bool-cases (mem v exclus)) [
    | inl e ↦ rw (more, e) (pick-le vs out exclus h)
    | inr e ↦
        rw (more, e)
          (pick-le vs (out ++ v ∷ []) (exclus ++ v ∷ [])
            (ground (arith, length-append out (v ∷ []))))
  ]
]

fill-le : (ordre out : List ℕ) → length out ≤ 2 → length (fill ordre out) ≤ 2
unfolding fill
fill-le [] out h = h
fill-le (v ∷ vs) out h = elim (Bool-cases (length out == 2)) [
  | inl full ↦ rw full h
  | inr more ↦ elim (Bool-cases (mem v out)) [
    | inl e ↦ rw (more, e) (fill-le vs out h)
    | inr e ↦ rw (more, e) (fill-le vs (out ++ v ∷ []) (ground (arith, length-append out (v ∷ []))))
  ]
]

-- No draw gives more than two stages.
pub tire_stages-le : (ordre exclus : List ℕ) → length (tire_stages ordre exclus).0 ≤ 2
unfolding tire_stages
tire_stages-le ordre exclus =
    fill-le ordre (pick ordre [] exclus).0 (pick-le ordre [] exclus (omega arith))
