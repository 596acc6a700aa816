-- ===== src/Session/Path.antt =====
-- session_address_rewrite.go: reecrireChaine, and what stands at the path afterwards.
use splatoon.Base.{
  ℕ, ◌^◌, ◌≤◌, ◌<◌, ◌≡◌, refl, Bool, true, false, Bool-cases, some, Option-cases, List, [], ◌∷◌,
  ◌++◌, map, any, All, All-map, All-append, All-of-map, All-always, any-append, length, Text, inl,
  inr, arith,
}
use splatoon.Session.{Wire, Issue, ok, reecrire_chaine}
use splatoon.Session.Fields.{Champ, champs, champ_chaine, est_chaine, ajout}
use splatoon.Session.Strings.{
  remplace, remplacer_chaine-champs, remplacer_chaine-IsPanne, reecrire_chaine-ne-stuck,
}
use mathlib.Core.List.{append-nil}
use splatoon.Session.Effect.{Mute, reecrire_champ-Reecrit}

module _ (w : Wire) where
  -- The field has those bytes.
  abbrev pub Contient : Champ → Text → Type 0
  Contient c v = w.consume_bytes c.contenu ≡ some (v, length c.contenu)

  -- At the end of the path stand fields, and each holds `val`.
  unfoldable pub SeLit : Text → List ℕ → Text → Type 0
  SeLit msg [] val = msg ≡ val
  SeLit msg (cible ∷ chemin) val =
      (cs : List Champ) × (champs w msg ≡ some cs)
      × (any (est_chaine w cible) cs ≡ true)
      × All (λ c. est_chaine w cible c ≡ true → (v : Text) × Contient c v × SeLit v chemin val) cs

  pub Contient-champ_chaine : (n : ℕ) (v : Text) → Contient (champ_chaine w n v) v
  Contient-champ_chaine n v = rw append-nil at (w.bytes_read v [])

  -- A number that a field can have.
  abbrev pub IsNumero : ℕ → Type 0
  IsNumero n = (1 ≤ n) × (n < 2 ^ 31)

  Remplacee : ℕ → Text → Champ → Type 0
  Remplacee cible val c = est_chaine w cible c ≡ true → c ≡ champ_chaine w cible val

  remplace-Remplacee :
      (cible : ℕ) (val : Text) (c : Champ) → Remplacee cible val (remplace w cible val c)
  unfolding Remplacee
  remplace-Remplacee cible val c = elim (Bool-cases (est_chaine w cible c)) [
    | inl hit ↦ rw hit (λ _. refl)
    | inr miss ↦ rw miss (λ t. cc)
  ]

  ajout-Remplacee :
      (cible : ℕ) (val : Text) (vu : Bool)
      → All (Remplacee cible val) (ajout w vu (champ_chaine w cible val))
  unfolding Remplacee
  ajout-Remplacee cible val true = tt
  ajout-Remplacee cible val false = ((λ _. refl), tt)

  est_chaine-remplace :
      (cible : ℕ) (val : Text) (c : Champ)
      → est_chaine w cible (remplace w cible val c) ≡ est_chaine w cible c
  est_chaine-remplace cible val c = elim (Bool-cases (est_chaine w cible c)) [
    | inl hit ↦ rw hit (ground arith)
    | inr miss ↦ rw miss miss
  ]

  any-remplace :
      (cible : ℕ) (val : Text) (cs : List Champ)
      → any (est_chaine w cible) (map (remplace w cible val) cs) ≡ any (est_chaine w cible) cs
  any-remplace cible val [] = refl
  any-remplace cible val (c ∷ cs) =
      rw (est_chaine-remplace cible val c, any-remplace cible val cs) refl

  any-ajout :
      (cible : ℕ) (val : Text) (b : Bool) (ds : List Champ)
      → any (est_chaine w cible) ds ≡ b
      → any (est_chaine w cible) (ds ++ ajout w b (champ_chaine w cible val)) ≡ true
  any-ajout cible val true ds e = rw append-nil e
  any-ajout cible val false ds e =
      rw (any-append (est_chaine w cible) ds (champ_chaine w cible val ∷ []), e) (ground arith)

  -- Over a wire format with the laws of Wire, on a path of numbers that a field can have: when
  -- reecrireChaine answers a message, that message can be read along the path, each number of the
  -- path has a field at its place, and every field that stands at the end of the path holds the new
  -- string.
  pub reecrire_chaine-SeLit :
      (chemin : List ℕ) (msg val out : Text)
      → All IsNumero chemin
      → reecrire_chaine w msg chemin val ≡ ok out
      → SeLit out chemin val
  unfolding reecrire_chaine SeLit Remplacee Mute
  reecrire_chaine-SeLit [] msg val out h e = cc
  reecrire_chaine-SeLit (cible ∷ []) msg val out h e = elim (Option-cases (champs w msg)) [
    | inl none_read ↦ let (x, stop) = remplacer_chaine-IsPanne w cible val msg none_read in cc
    | inr (cs, read) ↦
        let (out', done, back) = remplacer_chaine-champs w cible val msg cs h.0.0 h.0.1 read in
        let same : out' ≡ out = ground arith in
        let ds = map (remplace w cible val) cs in
        let added = ajout w (any (est_chaine w cible) cs) (champ_chaine w cible val) in
        (
          ds ++ added,
          rw (← same) back,
          any-ajout cible val (any (est_chaine w cible) cs) ds (any-remplace cible val cs),
          All-map (Remplacee cible val) _
              (λ c r t. (val, rw (r t) (Contient-champ_chaine cible val), refl)) (ds ++ added)
              (All-append (Remplacee cible val) ds added
                (All-of-map (Remplacee cible val) (remplace w cible val) cs
                  (All-always _ cs (remplace-Remplacee cible val)))
                (ajout-Remplacee cible val (any (est_chaine w cible) cs))),
        )
  ]
  reecrire_chaine-SeLit (cible ∷ suivant ∷ chemin) msg val out h e =
      let muter : Text → Issue Text = λ sous. reecrire_chaine w sous (suivant ∷ chemin) val in
      let (cs, ds, read, back, r, hit) =
        reecrire_champ-Reecrit w cible muter h.0.0 h.0.1 msg out
          (λ sous. reecrire_chaine-ne-stuck w (suivant ∷ chemin) sous val) e in
      (
        ds,
        back,
        hit,
        All-map (Mute w cible muter) _
            (λ c m t.
              let (avant, apres, done, is) = m t in
              (
                apres,
                rw is (Contient-champ_chaine cible apres),
                reecrire_chaine-SeLit (suivant ∷ chemin) avant val apres h.1 done,
              ))
            ds r.changed,
      )
