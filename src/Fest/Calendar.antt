-- ===== src/Fest/Calendar.antt =====
-- fest_genere.go, fest_duree.go: the instants of the calendar.
use splatoon.Base.{
  ℕ, zero, suc, ◌+◌, ◌-◌, ◌*◌, ◌/◌, ◌%◌, ◌≤◌, ◌<◌, ◌≡◌, refl, ◌∙◌, Bool-cases, Option, none, some,
  Option-cases, if◌then◌else◌, Text, codes, inl, inr, arith, ℤ, pos, negsuc,
}
use splatoon.Fest.{
  creneau_fest, duree_creneau_fest, jour, instant_unix, jour_de_semaine, Drapeaux, parse_int,
  positif, a_valeur, aligner_sur_creneau, prochain_samedi, debut_de_la_fete_maison, ramene,
  duree_de_fete,
}

-- Once past the instant, the loop over the days stops `k` days later, at the next Saturday.
samedi_dans :
    (k fuel maintenant j : ℕ)
    → maintenant < j
    → k < 7
    → (j / jour + k + 1) % 7 ≡ 6
    → k < fuel
    → prochain_samedi fuel maintenant j ≡ j + k * jour
unfolding prochain_samedi
samedi_dans zero zero maintenant j l b h f = absurd (omega arith)
samedi_dans zero (suc fuel) maintenant j l b h f = ground arith
samedi_dans (suc k) zero maintenant j l b h f = absurd (omega arith)
samedi_dans (suc k) (suc fuel) maintenant j l b h f = ground (
  arith,
  samedi_dans k fuel maintenant (j + jour) (omega arith) (omega arith) (omega arith) (omega arith),
)

samedi_step :
    (fuel maintenant j : ℕ)
    → j ≤ maintenant
    → prochain_samedi (suc fuel) maintenant j ≡ prochain_samedi fuel maintenant (j + jour)
unfolding prochain_samedi
samedi_step fuel maintenant j h = ground arith

-- The day that the loop answers.
abbrev Samedi : ℕ → ℕ → Type 0
Samedi maintenant s =
    (s % jour ≡ 0) × (jour_de_semaine s ≡ 6) × (maintenant < s) × (s ≤ maintenant + 7 * jour)

pub prochain_samedi-Samedi :
    (maintenant : ℕ)
    → Samedi maintenant (prochain_samedi 8 maintenant (maintenant - maintenant % jour))
prochain_samedi-Samedi maintenant =
    let j : ℕ = maintenant - maintenant % jour in
    let k : ℕ = 6 - ((j + jour) / jour + 1) % 7 in
    let found =
      samedi_step 7 maintenant j (omega arith)
      ∙ samedi_dans k 7 maintenant (j + jour) (omega arith) (omega arith) (omega arith)
          (omega arith) in
    rw found (omega arith)

-- The start that an operator has chosen: the value of the flag, if it is a positive number.
unfoldable pub date_choisie : Drapeaux → Option ℕ
unfolding parse_int positif
date_choisie drapeaux =
    if a_valeur (drapeaux (codes "festmaison"))
    then positif (parse_int (drapeaux (codes "festmaison")))
    else none

pub debut_choisi :
    (drapeaux : Drapeaux) (n maintenant : ℕ)
    → date_choisie drapeaux ≡ some n
    → debut_de_la_fete_maison drapeaux maintenant ≡ aligner_sur_creneau (instant_unix n)
unfolding date_choisie debut_de_la_fete_maison
debut_choisi drapeaux n maintenant e =
    elim (Bool-cases (a_valeur (drapeaux (codes "festmaison")))) [
      | inl some_value ↦ rw (some_value, rw some_value at e) refl
      | inr no_value ↦ absurd (none-ne-some (rw no_value at e))
    ]
  where
    none-ne-some : none ≡ some n → ⊥
    none-ne-some h = cc

pub debut_du_samedi :
    (drapeaux : Drapeaux) (maintenant : ℕ)
    → date_choisie drapeaux ≡ none
    → debut_de_la_fete_maison drapeaux maintenant
      ≡ aligner_sur_creneau (prochain_samedi 8 maintenant (maintenant - maintenant % jour))
unfolding date_choisie debut_de_la_fete_maison
debut_du_samedi drapeaux maintenant e =
    elim (Bool-cases (a_valeur (drapeaux (codes "festmaison")))) [
      | inl some_value ↦ rw (some_value, rw some_value at e) refl
      | inr no_value ↦ rw no_value refl
    ]

aligner_lem : (t : ℕ) → aligner_sur_creneau t % duree_creneau_fest ≡ 0
unfolding aligner_sur_creneau
aligner_lem t = omega arith

-- A start is on a slot, whatever the flags and the clock.
pub debut_aligned :
    (drapeaux : Drapeaux) (maintenant : ℕ)
    → debut_de_la_fete_maison drapeaux maintenant % duree_creneau_fest ≡ 0
debut_aligned drapeaux maintenant = elim (Option-cases (date_choisie drapeaux)) [
  | inl no_date ↦ rw (debut_du_samedi drapeaux maintenant no_date) (aligner_lem _)
  | inr (n, date) ↦ rw (debut_choisi drapeaux n maintenant date) (aligner_lem _)
]

ramene_lem :
    (n : ℕ)
    → 0 < n
    → (ramene n % creneau_fest ≡ 0)
      × (0 < ramene n)
      × (n < ramene n + creneau_fest)
      × (creneau_fest ≤ n → ramene n ≤ n)
unfolding ramene
ramene_lem n h = ground arith

-- The number that a flag of a duration gives, if it gives a positive one.
unfoldable pub duree_choisie : Drapeaux → Text → Option ℕ
unfolding parse_int positif
duree_choisie drapeaux drapeau =
    if a_valeur (drapeaux drapeau) then positif (parse_int (drapeaux drapeau)) else none

positif-pos : (o : Option ℤ) (n : ℕ) → positif o ≡ some n → 0 < n
unfolding positif
positif-pos none n e = cc
positif-pos (some (negsuc k)) n e = cc
positif-pos (some (pos zero)) n e = cc
positif-pos (some (pos (suc k))) n e = ground arith

choisie-pos :
    (drapeaux : Drapeaux) (drapeau : Text) (n : ℕ) → duree_choisie drapeaux drapeau ≡ some n → 0 < n
unfolding duree_choisie
choisie-pos drapeaux drapeau n e = elim (Bool-cases (a_valeur (drapeaux drapeau))) [
  | inl some_value ↦ positif-pos (parse_int (drapeaux drapeau)) n (rw some_value at e)
  | inr no_value ↦ ground arith
]

duree_de_fete-choisie :
    (drapeaux : Drapeaux) (drapeau : Text) (defaut : ℕ)
    → duree_de_fete drapeaux drapeau defaut
      ≡ (elim (duree_choisie drapeaux drapeau) [ some n ↦ ramene n | none ↦ defaut ])
unfolding duree_de_fete duree_choisie
duree_de_fete-choisie drapeaux drapeau defaut = elim (Bool-cases (a_valeur (drapeaux drapeau))) [
  | inl some_value ↦ rw some_value refl
  | inr no_value ↦ rw no_value refl
]

-- A duration as the flag gives it, on the slots of two hours.
pub record Duree (choisie : Option ℕ) (defaut d : ℕ) : Type 0 where
  pub on_slot : d % creneau_fest ≡ 0
  pub positive : 0 < d
  pub above : (n : ℕ) → choisie ≡ some n → n < d + creneau_fest
  pub below : (n : ℕ) → choisie ≡ some n → creneau_fest ≤ n → d ≤ n
  pub unset : choisie ≡ none → d ≡ defaut

-- For a default that is a positive multiple of a slot, dureeDeFete gives a positive multiple of a
-- slot: the default where the flag gives no positive number, and else a duration that the number
-- exceeds by less than a slot, and that is not above the number where this is a slot at least.
pub duree_de_fete-Duree :
    (drapeaux : Drapeaux) (drapeau : Text) (defaut : ℕ)
    → defaut % creneau_fest ≡ 0
    → 0 < defaut
    → Duree (duree_choisie drapeaux drapeau) defaut (duree_de_fete drapeaux drapeau defaut)
duree_de_fete-Duree drapeaux drapeau defaut m p =
    elim (Option-cases (duree_choisie drapeaux drapeau)) [
      | inl none_given ↦
          let is : duree_de_fete drapeaux drapeau defaut ≡ defaut =
            duree_de_fete-choisie drapeaux drapeau defaut ∙ rw none_given refl in
          rw is (record {
            on_slot = m;
            positive = p;
            above = λ n e. cc;
            below = λ n e l. cc;
            unset = λ _. refl;
          })
      | inr (k, given) ↦
          let is : duree_de_fete drapeaux drapeau defaut ≡ ramene k =
            duree_de_fete-choisie drapeaux drapeau defaut ∙ rw given refl in
          let (slot, more, high, low) = ramene_lem k (choisie-pos drapeaux drapeau k given) in
          rw is (record {
            on_slot = slot;
            positive = more;
            above = λ n e. let same : k ≡ n = ground arith in rw (← same) high;
            below = λ n e l. let same : k ≡ n = ground arith in ground (arith, low);
            unset = λ e. cc;
          })
    ]
