-- ===== src/Session/Loop.antt =====
-- session_address_rewrite.go: the loop over the fields of a message, whatever is done with a field.
use splatoon.Base.{
  map, All, ℕ, zero, suc, ◌≤◌, ◌≡◌, ◌≢◌, refl, sym, ◌∙◌, none, some, Option-cases, List, [], ◌∷◌,
  ◌++◌, length, Text, inl, inr, arith, ◌⊎◌,
}
use splatoon.Session.{Wire, Panne, Issue, ok, err, stuck, ◌>>=◌, for_reste}
use splatoon.Session.Read.{lire_champ-IsChamp, lire_inv, lire_fail}
use splatoon.Session.Fields.{Champ, ecrit, ecrits, lire, lire_champ}
use mathlib.Core.List.{append_assoc, append-nil}

-- What holds of the value of a result that has one.
abbrev pub OnOk {ℓ κ} : {A : Type ℓ} → (A → Type κ) → Issue A → Type κ
OnOk P (ok a) = P a
OnOk P (err e) = Unit
OnOk P stuck = Unit

-- The result is an error.
abbrev pub IsPanne {ℓ} : {A : Type ℓ} → Issue A → Type ℓ
IsPanne i = (e : Panne) × (i ≡ err e)

-- The fields are changed one after the other.
unfoldable pub traduire {ℓ} :
    {S : Type ℓ} → (Champ → S → Issue (Champ × S)) → List Champ → S → Issue (List Champ × S)
traduire g [] vu = ok ([], vu)
traduire g (c ∷ cs) vu = do (c', vu') ← g c vu; (cs', vu'') ← traduire g cs vu'; ok (c' ∷ cs', vu'')

pub Issue-cases {ℓ} :
    {A : Type ℓ} (i : Issue A) → i ≢ stuck → ((a : A) × (i ≡ ok a)) ⊎ ((e : Panne) × (i ≡ err e))
Issue-cases (ok a) h = inl (a, refl)
Issue-cases (err e) h = inr (e, refl)
Issue-cases stuck h = absurd (h refl)

-- What was seen after each field of a list.
abbrev pub noter {ℓ} : {S : Type ℓ} → (Champ → S → S) → List Champ → S → S
noter note [] vu = vu
noter note (c ∷ cs) vu = noter note cs (note c vu)

-- A chain that ends well began well.
pub bind_inv {ℓ κ} :
    {A : Type ℓ} {B : Type κ} (i : Issue A) (k : A → Issue B) (b : B)
    → (i >>= k) ≡ ok b
    → (a : A) × (i ≡ ok a) × (k a ≡ ok b)
bind_inv (ok a) k b e = (a, refl, e)
bind_inv (err x) k b e = cc
bind_inv stuck k b e = cc

pub bind-ok {ℓ κ τ} :
    {A : Type ℓ} {B : Type κ} {C : Type τ} (i : Issue A) (f : A → B) (k : B → Issue C)
    → ((i >>= λ a. ok (f a)) >>= k) ≡ (i >>= λ a. k (f a))
bind-ok (ok a) f k = refl
bind-ok (err e) f k = refl
bind-ok stuck f k = refl

module _ {ℓ} {S : Type ℓ} (w : Wire) (body : Text → Text → S → Issue (Text × Text × S))
    (g : Champ → S → Issue (Champ × S)) where
  -- One round does to the first field what `g` says, and fails where no field can be read.
  pub record Rejoue : Type ℓ where
    pub lisible :
        (b out : Text) (vu : S) (c : Champ) (rest : Text)
        → lire_champ w b ≡ some (c, rest)
        → body b out vu ≡ (g c vu >>= λ p. ok (rest, out ++ ecrit w p.0, p.1))
    pub illisible : (b out : Text) (vu : S) → lire_champ w b ≡ none → IsPanne (body b out vu)
    pub decide : (c : Champ) (vu : S) → g c vu ≢ stuck

  module _ (r : Rejoue) where
    for_step :
        (fuel : ℕ) (b out : Text) (vu : S)
        → 1 ≤ length b
        → for_reste (suc fuel) body b out vu
          ≡ (body b out vu >>= λ p. for_reste fuel body p.0 p.1 p.2)
    unfolding for_reste
    for_step fuel [] out vu l = absurd (omega arith)
    for_step fuel (b ∷ bs) out vu l = refl

    pub for_reste-traduire :
        (fuel : ℕ) (b out : Text) (vu : S) (cs : List Champ)
        → lire w fuel b ≡ some cs
        → for_reste fuel body b out vu ≡ (traduire g cs vu >>= λ p. ok (out ++ ecrits w p.0, p.1))
    unfolding lire traduire
    for_reste-traduire fuel [] out vu [] e = unfold for_reste in rw append-nil refl
    for_reste-traduire zero [] out vu (c ∷ cs) e = ground arith
    for_reste-traduire (suc fuel) [] out vu (c ∷ cs) e = ground arith
    for_reste-traduire zero (b ∷ bs) out vu cs e = ground arith
    for_reste-traduire (suc fuel) (b ∷ bs) out vu [] e = ground arith
    for_reste-traduire (suc fuel) (b ∷ bs) out vu (c ∷ cs) e =
        let (rest, read, others) = lire_inv w fuel b bs c cs e in
        for_step fuel (b ∷ bs) out vu (omega arith)
        ∙ rw (r.lisible (b ∷ bs) out vu c rest read) (elim (Issue-cases (g c vu) (r.decide c vu)) [
          | inl ((c', vu'), ge) ↦ rw ge (
              for_reste-traduire fuel rest (out ++ ecrit w c') vu' cs others
              ∙ ((λ i. traduire g cs vu' >>= λ q.
                    ok (append_assoc out (ecrit w c') (ecrits w q.0) i, q.1))
                  ∙ sym (bind-ok (traduire g cs vu') _ _)))
          | inr (x, ge) ↦ rw ge refl
        ])

    -- A message that cannot be read is an error, and so is one where the change of a field fails.
    pub for_reste-IsPanne :
        (fuel : ℕ) (b out : Text) (vu : S)
        → length b ≤ fuel
        → lire w fuel b ≡ none
        → IsPanne (for_reste fuel body b out vu)
    for_reste-IsPanne fuel [] out vu l e = unfold lire in ground arith
    for_reste-IsPanne zero (b ∷ bs) out vu l e = absurd (omega arith)
    for_reste-IsPanne (suc fuel) (b ∷ bs) out vu l e = elim (Option-cases (lire_champ w (b ∷ bs))) [
      | inl no_field ↦
          let (x, stop) = r.illisible (b ∷ bs) out vu no_field in
          (x, for_step fuel (b ∷ bs) out vu (omega arith) ∙ rw stop refl)
      | inr ((c, rest), read) ↦ elim (Issue-cases (g c vu) (r.decide c vu)) [
        | inl ((c', vu'), ge) ↦
            let shorter = (lire_champ-IsChamp w (b ∷ bs) c rest read).1 in
            let (x, stop) =
              for_reste-IsPanne fuel rest (out ++ ecrit w c') vu' (omega arith)
                (lire_fail w fuel b bs c rest e read) in
            (
              x,
              for_step fuel (b ∷ bs) out vu (omega arith)
                  ∙ rw (r.lisible (b ∷ bs) out vu c rest read, ge) stop,
            )
        | inr (x, ge) ↦ (
          x,
          for_step fuel (b ∷ bs) out vu (omega arith)
              ∙ rw (r.lisible (b ∷ bs) out vu c rest read, ge) refl,
        )
      ]
    ]

    pub traduire-ne-stuck : (cs : List Champ) (vu : S) → traduire g cs vu ≢ stuck
    unfolding traduire
    traduire-ne-stuck [] vu = λ e. cc
    traduire-ne-stuck (c ∷ cs) vu = elim (Issue-cases (g c vu) (r.decide c vu)) [
      | inl ((c', vu'), ge) ↦ elim (Issue-cases (traduire g cs vu') (traduire-ne-stuck cs vu')) [
        | inl (p, te) ↦ rw (ge, te) (λ e. cc)
        | inr (x, te) ↦ rw (ge, te) (λ e. cc)
      ]
      | inr (x, ge) ↦ rw ge (λ e. cc)
    ]

-- Where no change fails, the fields are mapped and what was seen is noted.
pub traduire-map {ℓ} :
    {S : Type ℓ} (g : Champ → S → Issue (Champ × S)) (f : Champ → Champ) (note : Champ → S → S)
    (cs : List Champ) (vu : S)
    → All (λ c. (v : S) → g c v ≡ ok (f c, note c v)) cs
    → traduire g cs vu ≡ ok (map f cs, noter note cs vu)
unfolding traduire
traduire-map g f note [] vu h = refl
traduire-map g f note (c ∷ cs) vu h = rw (h.0 vu, traduire-map g f note cs (note c vu) h.1) refl

-- No change failed.
pub traduire-All {ℓ} :
    {S : Type ℓ} (g : Champ → S → Issue (Champ × S)) (P : Champ → Type 0)
    → ((c : Champ) (v : S) (q : Champ × S) → g c v ≡ ok q → P c)
    → (cs : List Champ) (vu : S) (p : List Champ × S) → traduire g cs vu ≡ ok p
    → All P cs
unfolding traduire
traduire-All g P h [] vu p e = tt
traduire-All g P h (c ∷ cs) vu p e =
    let ((c', vu'), ge, te) = bind_inv (g c vu) _ p e in
    let (q, re, _) = bind_inv (traduire g cs vu') _ p te in
    (h c vu (c', vu') ge, traduire-All g P h cs vu' q re)
