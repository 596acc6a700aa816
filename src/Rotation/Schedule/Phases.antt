-- ===== src/Rotation/Schedule/Phases.antt =====
-- rotation_generee.go: the stages of a published phase.
use splatoon.Base.{
  ℕ, ◌+◌, map, length-append, ◌≤◌, ◌≡◌, refl, sym, ap, ◌∙◌, subst, true, false, not, Option, none,
  some, List, [], ◌∷◌, ◌++◌, ℤ, length, get_or, take, All, All-map, All-take, All-keep, AllPairs,
  AllPairs-take, AllPairs-keep, keep-passes, length-take, arith,
}
use mathlib.Core.List.{append_assoc, append-nil}
use splatoon.Rotation.{
  mem, regles_du_creneau, pred, melange_stages, stages_du_creneau, stages_connus, tire_stages,
  draws,
}
use splatoon.Rotation.Bounds.{tire_stages-le}
use splatoon.Rotation.Shuffle.{Other}
use splatoon.Rotation.Draw.{free, draws-take, length-free}
use splatoon.Rotation.Slots.{
  melange_stages-distinct, melange_stages-known, melange_stages-length, stages_du_creneau-take,
}
use splatoon.Rotation.Schedule.{
  gabarit_league, VsSchedule, RankedSettings, LeagueSettings, phase_with, phase_de, league_de,
}

abbrev ranked_stages : List RankedSettings → List ℕ
ranked_stages [] = []
ranked_stages (r ∷ rs) = r.stages ++ ranked_stages rs

abbrev pub league_stages : Option LeagueSettings → List ℕ
league_stages none = []
league_stages (some l) = l.stages

-- All the stages of a phase, in the order in which they are drawn.
unfoldable pub stages_of : VsSchedule → List ℕ
stages_of ph =
    ph.regular.stages ++ (ranked_stages ph.bankara ++ (ph.x.stages ++ league_stages ph.league))

joined : (a b c d e : List ℕ) → a ++ ((b ++ (c ++ [])) ++ (d ++ e)) ≡ (((a ++ b) ++ c) ++ d) ++ e
joined a b c d e = simp (append_assoc, append-nil)

league_de-stages :
    (g : Option LeagueSettings) (rule : ℕ) (l : List ℕ) → (league_de g rule l).stages ≡ l
unfolding league_de
league_de-stages none rule l = refl
league_de-stages (some g) rule l = refl

-- Five draws in a row, written out.
five_draws :
    (ordre exclus : List ℕ)
    → (let a = tire_stages ordre exclus in
        let b = tire_stages ordre a.1 in
        let c = tire_stages ordre b.1 in
        let d = tire_stages ordre c.1 in
        let e = tire_stages ordre d.1 in
        (((a.0 ++ b.0) ++ c.0) ++ d.0) ++ e.0 ≡ draws 5 ordre exclus [])
unfolding draws
five_draws ordre exclus = refl

-- The stages of a phase are five draws in a row.
phase_with-draws :
    (g : Option VsSchedule) (c : ℤ) (ordre regles exclus : List ℕ)
    → stages_of (phase_with g c ordre regles exclus) ≡ draws 5 ordre exclus []
unfolding stages_of phase_with
phase_with-draws g c ordre regles exclus =
    let a = tire_stages ordre exclus in
    let b0 = tire_stages ordre a.1 in
    let b1 = tire_stages ordre b0.1 in
    let x = tire_stages ordre b1.1 in
    let l = tire_stages ordre x.1 in
    ap (λ z. a.0 ++ ((b0.0 ++ (b1.0 ++ [])) ++ (x.0 ++ z)))
      (league_de-stages (gabarit_league g) (get_or regles 3 0) l.0)
    ∙ joined a.0 b0.0 b1.0 x.0 l.0
    ∙ five_draws ordre exclus

length-five :
    (a b c d e : List ℕ)
    → length (a ++ ((b ++ (c ++ [])) ++ (d ++ e)))
      ≡ length a + (length b + (length c + (length d + length e)))
length-five a b c d e = omega (
  arith,
  length-append a ((b ++ (c ++ [])) ++ (d ++ e)),
  length-append (b ++ (c ++ [])) (d ++ e),
  length-append b (c ++ []),
  length-append c [],
  length-append d e,
)

record TwoEach (ph : VsSchedule) : Type 0 where
  regular : length ph.regular.stages ≡ 2
  bankara : map (λ (r : RankedSettings). length r.stages) ph.bankara ≡ 2 ∷ 2 ∷ []
  x : length ph.x.stages ≡ 2
  league : length (league_stages ph.league) ≡ 2

two_of_ten :
    (a b c d e : ℕ)
    → a ≤ 2
    → b ≤ 2
    → c ≤ 2
    → d ≤ 2
    → e ≤ 2
    → a + (b + (c + (d + e))) ≡ 10
    → (a ≡ 2) × (b ≡ 2) × (c ≡ 2) × (d ≡ 2) × (e ≡ 2)
two_of_ten a b c d e ha hb hc hd he h =
    (omega arith, omega arith, omega arith, omega arith, omega arith)

-- Five draws that give ten stages in all give two each.
phase_with-TwoEach :
    (g : Option VsSchedule) (c : ℤ) (ordre regles exclus : List ℕ)
    → length (stages_of (phase_with g c ordre regles exclus)) ≡ 10
    → TwoEach (phase_with g c ordre regles exclus)
unfolding stages_of phase_with
phase_with-TwoEach g c ordre regles exclus ten =
    let a = tire_stages ordre exclus in
    let b0 = tire_stages ordre a.1 in
    let b1 = tire_stages ordre b0.1 in
    let x = tire_stages ordre b1.1 in
    let l = tire_stages ordre x.1 in
    let last = league_de-stages (gabarit_league g) (get_or regles 3 0) l.0 in
    let sum : length a.0 + (length b0.0 + (length b1.0 + (length x.0 + length l.0))) ≡ 10 =
      sym (length-five a.0 b0.0 b1.0 x.0 l.0)
      ∙ (ap (λ z. length (a.0 ++ ((b0.0 ++ (b1.0 ++ [])) ++ (x.0 ++ z)))) (sym last) ∙ ten) in
    let (ea, eb, ec, ed, ee) =
      two_of_ten _ _ _ _ _ (tire_stages-le ordre exclus) (tire_stages-le ordre a.1)
        (tire_stages-le ordre b0.1) (tire_stages-le ordre b1.1) (tire_stages-le ordre x.1) sum in
    record { regular = ea; bankara = λ i. eb i ∷ ec i ∷ []; x = ed; league = ap length last ∙ ee }

previous_ten : (c : ℤ) → length (stages_du_creneau c) ≡ 10
previous_ten c = omega (
  arith,
  ap length (stages_du_creneau-take c),
  length-take 10 (melange_stages c),
  melange_stages-length c,
)

-- Fifteen stages are left for ten draws.
enough : (c : ℤ) → 15 ≤ length (free (stages_du_creneau (pred c)) (melange_stages c))
enough c = omega (
  arith,
  length-free (stages_du_creneau (pred c)) (melange_stages c) (melange_stages-distinct c),
  melange_stages-length c,
  previous_ten (pred c),
)

-- The stages that a phase publishes: the first ten that were not in the slot before.
pub phase_de-take :
    (g : Option VsSchedule) (c : ℤ)
    → stages_of (phase_de g c) ≡ take 10 (free (stages_du_creneau (pred c)) (melange_stages c))
phase_de-take g c =
    phase_with-draws g c (melange_stages c) (regles_du_creneau c) (stages_du_creneau (pred c))
    ∙ draws-take 5 (melange_stages c) (stages_du_creneau (pred c)) [] (melange_stages-distinct c)
        (omega (arith, enough c))

-- A phase has two stages for each of its five modes, two of them ranked modes of « bankara », ten
-- known and different stages in all, none of which
-- is a stage of the slot before.
pub record IsPhase (c : ℤ) (ph : VsSchedule) : Type 0 where
  pub regular_two : length ph.regular.stages ≡ 2
  pub bankara_two : map (λ (r : RankedSettings). length r.stages) ph.bankara ≡ 2 ∷ 2 ∷ []
  pub x_two : length ph.x.stages ≡ 2
  pub league_two : length (league_stages ph.league) ≡ 2
  pub ten : length (stages_of ph) ≡ 10
  pub different : AllPairs Other (stages_of ph)
  pub known : All (λ v. mem v stages_connus ≡ true) (stages_of ph)
  pub renewed : All (λ v. mem v (stages_du_creneau (pred c)) ≡ false) (stages_of ph)

-- Every phase that rotationEngendree builds, whatever its slot and the template, publishes ten
-- stages, two for each of five modes; they are known and different, and none of them is one of the
-- ten of stagesDuCreneau for the slot before.
pub phase_de-IsPhase : (g : Option VsSchedule) (c : ℤ) → IsPhase c (phase_de g c)
phase_de-IsPhase g c =
    let before = stages_du_creneau (pred c) in
    let left = free before (melange_stages c) in
    let same = sym (phase_de-take g c) in
    let ten : length (stages_of (phase_de g c)) ≡ 10 =
      omega (arith, ap length same, length-take 10 left, enough c) in
    let two =
      phase_with-TwoEach g c (melange_stages c) (regles_du_creneau c) (stages_du_creneau (pred c))
        ten in
    record {
      regular_two = two.regular;
      bankara_two = two.bankara;
      x_two = two.x;
      league_two = two.league;
      ten = ten;
      different = subst (AllPairs Other) same (
          AllPairs-take Other 10 left
            (AllPairs-keep Other (λ v. not (mem v before)) _ (melange_stages-distinct c)));
      known =
          subst (All (λ v. mem v stages_connus ≡ true)) same
            (All-take _ 10 left (All-keep _ (λ v. not (mem v before)) _ (melange_stages-known c)));
      renewed = subst (All (λ v. mem v before ≡ false)) same (
          All-take _ 10 left (
            All-map _ (λ v. mem v before ≡ false) (λ v h. ground arith) left
              (keep-passes (λ v. not (mem v before)) (melange_stages c))));
    }
