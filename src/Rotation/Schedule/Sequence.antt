-- ===== src/Rotation/Schedule/Sequence.antt =====
-- rotation_generee.go: how the phases that are published follow one another.
use splatoon.Base.{
  ℕ, zero, suc, ◌+◌, ◌-◌, ◌*◌, ◌/◌, ◌≤◌, ◌<◌, ◌≡◌, refl, sym, ap, ◌∙◌, subst, false, Option, List,
  [], ◌∷◌, leb, ℤ, pos, negsuc, length, take, keep, All, All-map, All-swap, arith,
}
use splatoon.Rotation.{
  mem, negative, pred, succ, rang_de, melange_stages, stages_du_creneau, rotation_period,
  creneau_de,
}
use splatoon.Rotation.Shuffle.{Other}
use splatoon.Rotation.Draw.{free}
use splatoon.Rotation.Slots.{
  stages_du_creneau-take, stages_du_creneau-apart, pred-succ, succ-pred, rang_de-pred,
}
use splatoon.Rotation.Schedule.{
  VsSchedule, SelectVsSchedulesResponse, phase_with, phase_de, phases_from, debut_de, add_seconds,
  rotation_engendree, first_schedule,
}
use splatoon.Rotation.Schedule.Phases.{stages_of, phase_de-IsPhase, phase_de-take}

take-free :
    (k : ℕ) (exclus xs : List ℕ)
    → All (λ v. mem v exclus ≡ false) (take k xs)
    → take k (free exclus xs) ≡ take k xs
take-free zero exclus xs h = refl
take-free (suc k) exclus [] h = refl
take-free (suc k) exclus (x ∷ xs) h = rw (h.0, keep) (ap (λ l. x ∷ l) (take-free k exclus xs h.1))

not-mem : (v : ℕ) (xs : List ℕ) → All (λ x. Other x v) xs → mem v xs ≡ false
not-mem v [] h = refl
not-mem v (x ∷ xs) h = ground (arith, h.0, not-mem v xs h.1)

-- Except at the start of a group, a phase publishes the stages of its slot.
published :
    (g : Option VsSchedule) (c : ℤ) → 0 < rang_de c → stages_of (phase_de g c) ≡ stages_du_creneau c
published g c h =
    let apart = stages_du_creneau-apart (pred c) (rang_de-pred c h) in
    let before = stages_du_creneau (pred c) in
    let here : All (λ v. All (λ x. Other x v) before) (take 10 (melange_stages c)) =
      subst (λ l. All (λ v. All (λ x. Other x v) before) l)
        (ap stages_du_creneau (succ-pred c) ∙ stages_du_creneau-take c)
        (All-swap Other before (stages_du_creneau (succ (pred c))) apart) in
    phase_de-take g c
    ∙ take-free 10 before (melange_stages c)
        (All-map _ (λ v. mem v before ≡ false) (λ v a. not-mem v before a) _ here)
    ∙ sym (stages_du_creneau-take c)

-- Two phases in a row share no stage, except where the first of them is for the first slot of a
-- group of five.
pub consecutive_phases :
    (g : Option VsSchedule) (c : ℤ)
    → 0 < rang_de c
    → All (λ v. mem v (stages_of (phase_de g c)) ≡ false) (stages_of (phase_de g (succ c)))
consecutive_phases g c h =
    subst (λ l. All (λ v. mem v l ≡ false) (stages_of (phase_de g (succ c))))
      (ap stages_du_creneau (pred-succ c) ∙ sym (published g c h))
      (phase_de-IsPhase g (succ c)).renewed

before_epoch : (n : ℕ) → negative (suc n * rotation_period) ≡ negsuc (n * rotation_period + 7199)
before_epoch n =
    let e : suc n * rotation_period ≡ suc (n * rotation_period + 7199) = omega arith in
    ap negative e

later : (a b : ℕ) → 7200 ≤ a → b ≡ a - 7200 → add_seconds (negsuc a) 7200 ≡ negsuc b
unfolding add_seconds
later a b h e = let no : leb (suc a) 7200 ≡ false = ground arith in rw no (ap negsuc (sym e))

-- The end of a phase is the start of the next slot.
debut_de-succ : (c : ℤ) → add_seconds (debut_de c) rotation_period ≡ debut_de (succ c)
unfolding debut_de add_seconds
debut_de-succ (pos n) = ap pos (omega arith)
debut_de-succ (negsuc zero) = refl
debut_de-succ (negsuc (suc n)) =
    ap (λ z. add_seconds z rotation_period) (before_epoch (suc n))
    ∙ later (suc n * rotation_period + 7199) (n * rotation_period + 7199) (omega arith)
        (omega arith)
    ∙ sym (before_epoch n)

chained :
    (g : Option VsSchedule) (c : ℤ) → (phase_de g c).end_time ≡ (phase_de g (succ c)).start_time
unfolding phase_with
chained g c = debut_de-succ c

running :
    (g : Option VsSchedule) (t : ℕ)
    → (let ph = phase_de g (creneau_de (pos t)) in
        (s : ℕ) × (ph.start_time ≡ pos s)
        × (s ≤ t)
        × (ph.end_time ≡ pos (s + 7200))
        × (t < s + 7200))
unfolding phase_with creneau_de debut_de add_seconds
running g t = (t / 7200 * 7200, refl, omega arith, refl, omega arith)

phases_from-length : (g : Option VsSchedule) (n : ℕ) (c : ℤ) → length (phases_from g n c) ≡ n
unfolding phases_from
phases_from-length g zero c = refl
phases_from-length g (suc n) c = ap suc (phases_from-length g n (succ c))

-- A phase ends when the next one starts.
abbrev Chained : List VsSchedule → Type 0
Chained [] = Unit
Chained (ph ∷ []) = Unit
Chained (ph ∷ next ∷ rest) = (ph.end_time ≡ next.start_time) × Chained (next ∷ rest)

phases_from-Chained : (g : Option VsSchedule) (n : ℕ) (c : ℤ) → Chained (phases_from g n c)
unfolding phases_from
phases_from-Chained g zero c = tt
phases_from-Chained g (suc zero) c = tt
phases_from-Chained g (suc (suc n)) c = (chained g c, phases_from-Chained g (suc n) (succ c))

-- What the game needs of a schedule: twelve phases without a gap, the second of which is running.
pub record IsSchedule (t : ℕ) (r : SelectVsSchedulesResponse) : Type 0 where
  pub twelve : length r.schedules ≡ 12
  pub chained : Chained r.schedules
  pub before : VsSchedule
  pub current : VsSchedule
  pub after : List VsSchedule
  pub parts : r.schedules ≡ before ∷ current ∷ after
  pub started :
      (s : ℕ) × (current.start_time ≡ pos s)
      × (s ≤ t)
      × (current.end_time ≡ pos (s + 7200))
      × (t < s + 7200)

-- At an instant after the epoch, rotationEngendree gives twelve phases, each of which starts when
-- the last one ends, and the second of them is of two hours and contains the instant.
pub rotation_engendree-IsSchedule :
    (t : ℕ) (modele : SelectVsSchedulesResponse) → IsSchedule t (rotation_engendree (pos t) modele)
unfolding rotation_engendree
rotation_engendree-IsSchedule t modele =
    let g = first_schedule modele.schedules in
    let c = creneau_de (pos t) in
    record {
      twelve = phases_from-length g 12 (pred c);
      chained = phases_from-Chained g 12 (pred c);
      before = phase_de g (pred c);
      current = phase_de g c;
      after = phases_from g 10 (succ c);
      parts = ap (λ z. phase_de g (pred c) ∷ phases_from g 11 z) (succ-pred c);
      started = running g t;
    }
