-- ===== src/Rotation/Draw.antt =====
-- rotation_generee.go, tireStages: what a draw takes from an order.
use splatoon.Base.{
  ℕ, zero, suc, ◌+◌, ◌-◌, ◌≤◌, ◌≡◌, refl, sym, ap, ◌∙◌, subst, Bool, true, false, not, ◌||◌, inl,
  inr, List, [], ◌∷◌, ◌++◌, if◌then◌else◌, ◌==◌, length, take, drop, keep, All, All-map, AllPairs,
  AllPairs-keep, length-append, length-take, Bool-cases, arith,
}
use mathlib.Core.List.{append_assoc, append-nil}
use splatoon.Rotation.{mem, pick, fill, tire_stages, draws}
use splatoon.Rotation.Shuffle.{Other}

-- What is left of an order once some stages are excluded.
abbrev pub free : List ℕ → List ℕ → List ℕ
free exclus ordre = keep (λ v. not (mem v exclus)) ordre

mem-append : (v : ℕ) (xs ys : List ℕ) → mem v (xs ++ ys) ≡ (mem v xs || mem v ys)
mem-append v [] ys = refl
mem-append v (x ∷ xs) ys = ground (arith, mem-append v xs ys)

-- A test that every element passes, or that agrees with another one on every element.
keep-same : (p q : ℕ → Bool) (xs : List ℕ) → All (λ x. p x ≡ q x) xs → keep p xs ≡ keep q xs
keep-same p q [] h = refl
keep-same p q (x ∷ xs) h = ground (arith, h.0, keep-same p q xs h.1)

-- A stage that does not stand in an order may be excluded as well.
free-Other :
    (v : ℕ) (exclus ordre : List ℕ)
    → All (Other v) ordre
    → free (exclus ++ v ∷ []) ordre ≡ free exclus ordre
free-Other v exclus ordre h =
    keep-same _ _ ordre
      (All-map (Other v) _ (λ x o. ground (arith, mem-append x exclus (v ∷ []))) ordre h)

pairs : {a b c d : List ℕ} → a ≡ b → c ≡ d → ◌≡◌ {A = List ℕ × List ℕ} (a, c) (b, d)
pairs p q i = (p i, q i)

-- While k stages are wanted, the first loop takes the first k that are not excluded.
pick-take :
    (ordre out exclus : List ℕ) (k : ℕ)
    → AllPairs Other ordre
    → length out + k ≡ 2
    → pick ordre out exclus
      ≡ (out ++ take k (free exclus ordre), exclus ++ take k (free exclus ordre))
unfolding pick
pick-take [] out exclus zero d h = rw (append-nil out, append-nil exclus)
pick-take [] out exclus (suc k) d h = rw (append-nil out, append-nil exclus)
pick-take (v ∷ vs) out exclus zero d h =
    let full : (length out == 2) ≡ true = ground arith in
    rw (full, append-nil out, append-nil exclus)
pick-take (v ∷ vs) out exclus (suc k) d h =
    let more : (length out == 2) ≡ false = ground arith in
    elim (Bool-cases (mem v exclus)) [
      | inl e ↦ rw (more, e, keep) (pick-take vs out exclus (suc k) d.1 h)
      | inr e ↦
          let rest = free exclus vs in
          let same : free (exclus ++ v ∷ []) vs ≡ rest = free-Other v exclus vs d.0 in
          let step : pick vs (out ++ v ∷ []) (exclus ++ v ∷ []) ≡ (
            (out ++ v ∷ []) ++ take k (free (exclus ++ v ∷ []) vs),
            (exclus ++ v ∷ []) ++ take k (free (exclus ++ v ∷ []) vs),
          ) =
            pick-take vs (out ++ v ∷ []) (exclus ++ v ∷ []) k d.1
              (omega (arith, length-append out (v ∷ []))) in
          let joined : pick vs (out ++ v ∷ []) (exclus ++ v ∷ [])
              ≡ (out ++ v ∷ take k rest, exclus ++ v ∷ take k rest) =
            step
            ∙ ap (λ l. ((out ++ v ∷ []) ++ take k l, (exclus ++ v ∷ []) ++ take k l)) same
            ∙ pairs (append_assoc out (v ∷ []) (take k rest))
                (append_assoc exclus (v ∷ []) (take k rest)) in
          rw (more, e, keep) joined
    ]

fill-full : (ordre out : List ℕ) → length out ≡ 2 → fill ordre out ≡ out
unfolding fill
fill-full [] out h = refl
fill-full (v ∷ vs) out h = ground arith

-- On an order without duplicates in which two stages at least are not excluded, tireStages gives the
-- first two of those that are not excluded, and excludes them in turn.
pub tire_stages-take :
    (ordre exclus : List ℕ)
    → AllPairs Other ordre
    → 2 ≤ length (free exclus ordre)
    → tire_stages ordre exclus ≡ (take 2 (free exclus ordre), exclus ++ take 2 (free exclus ordre))
unfolding tire_stages
tire_stages-take ordre exclus d h =
    let two = take 2 (free exclus ordre) in
    rw (pick-take ordre [] exclus 2 d refl)
      (pairs (fill-full ordre two (omega (arith, length-take 2 (free exclus ordre)))) refl)

free-append : (xs ys ordre : List ℕ) → free (xs ++ ys) ordre ≡ free ys (free xs ordre)
free-append xs ys [] = refl
free-append xs ys (v ∷ vs) = elim (Bool-cases (mem v xs)) [
  | inl e ↦
      let both : mem v (xs ++ ys) ≡ true = ground (arith, mem-append v xs ys) in
      rw (e, both, keep) (free-append xs ys vs)
  | inr e ↦
      let both : mem v (xs ++ ys) ≡ mem v ys = ground (arith, mem-append v xs ys) in
      rw (e, both, keep) (ap (λ l. if not (mem v ys) then v ∷ l else l) (free-append xs ys vs))
]

pub free-nothing : (xs : List ℕ) → free [] xs ≡ xs
free-nothing [] = refl
free-nothing (x ∷ xs) = ap (λ l. x ∷ l) (free-nothing xs)

drop-free : (k : ℕ) (xs : List ℕ) → AllPairs Other xs → free (take k xs) xs ≡ drop k xs
drop-free zero xs d = free-nothing xs
drop-free (suc k) [] d = refl
drop-free (suc k) (x ∷ xs) d =
    let here : mem x (x ∷ take k xs) ≡ true = ground arith in
    let later : free (x ∷ take k xs) xs ≡ free (take k xs) xs =
      keep-same _ _ xs (All-map (Other x) _ (λ y o. ground arith) xs d.0) in
    rw (here, keep) (later ∙ drop-free k xs d.1)

take-drop : (k : ℕ) (xs : List ℕ) → take 2 xs ++ take k (drop 2 xs) ≡ take (suc (suc k)) xs
take-drop zero [] = refl
take-drop (suc k) [] = refl
take-drop zero (x ∷ []) = refl
take-drop (suc k) (x ∷ []) = refl
take-drop k (x ∷ y ∷ xs) = refl

length-drop : (xs : List ℕ) → length (drop 2 xs) ≡ length xs - 2
length-drop [] = refl
length-drop (x ∷ []) = refl
length-drop (x ∷ y ∷ xs) = omega arith

abbrev pub double : ℕ → ℕ
double zero = 0
double (suc n) = suc (suc (double n))

-- The stages of n modes are the first 2n that are not excluded, where as many are left.
pub draws-take :
    (n : ℕ) (ordre exclus out : List ℕ)
    → AllPairs Other ordre
    → double n ≤ length (free exclus ordre)
    → draws n ordre exclus out ≡ out ++ take (double n) (free exclus ordre)
unfolding draws
draws-take zero ordre exclus out d h = sym (append-nil out)
draws-take (suc n) ordre exclus out d h =
    let left = free exclus ordre in
    let two = take 2 left in
    let distinct : AllPairs Other left = AllPairs-keep Other (λ v. not (mem v exclus)) ordre d in
    let rest : free (exclus ++ two) ordre ≡ drop 2 left =
      free-append exclus two ordre ∙ drop-free 2 left distinct in
    let more : double n ≤ length (free (exclus ++ two) ordre) =
      omega (arith, length-drop left, ap length rest) in
    ap (λ (p : List ℕ × List ℕ). draws n ordre p.1 (out ++ p.0))
      (tire_stages-take ordre exclus d (omega arith))
    ∙ (draws-take n ordre (exclus ++ two) (out ++ two) d more
        ∙ ap (λ l. (out ++ two) ++ take (double n) l) rest
        ∙ append_assoc out two (take (double n) (drop 2 left))
        ∙ ap (λ l. out ++ l) (take-drop (double n) left))

-- Excluding as many elements as a list has leaves at least the difference of the lengths.
one_less : (v : ℕ) (xs : List ℕ) → AllPairs Other xs → length xs ≤ suc (length (free (v ∷ []) xs))
one_less v [] d = omega arith
one_less v (x ∷ xs) d = elim (Bool-cases (v == x)) [
  | inl e ↦
      let same : x ≡ v = ground arith in
      let all : free (v ∷ []) xs ≡ xs =
        free-Other v [] xs (subst (λ z. All (Other z) xs) same d.0) ∙ free-nothing xs in
      rw e (omega (arith, ap length all))
  | inr e ↦ rw e (omega (arith, one_less v xs d.1))
]

pub length-free :
    (exclus ordre : List ℕ)
    → AllPairs Other ordre
    → length ordre ≤ length (free exclus ordre) + length exclus
length-free [] ordre d = omega (arith, ap length (free-nothing ordre))
length-free (v ∷ vs) ordre d = omega (
  arith,
  one_less v ordre d,
  length-free vs (free (v ∷ []) ordre) (AllPairs-keep Other (λ x. not (mem x (v ∷ []))) ordre d),
  ap length (free-append (v ∷ []) vs ordre),
)
