-- ===== src/Session/Strings.antt =====
-- session_address_rewrite.go: remplacerChaine and reecrireChaine on a message that can be read.
use splatoon.Base.{
  ℕ, ◌^◌, ◌≤◌, ◌<◌, ◌≡◌, ◌≢◌, refl, ap, Bool, true, false, ◌&&◌, ◌||◌, Bool-cases, if◌then◌else◌,
  ◌==◌, none, some, Option-cases, List, [], ◌∷◌, ◌++◌, map, any, All, length, Text, inl, inr, arith,
  &&_true, ==_iff, All-map, All-append, All-of-map,
}
use splatoon.Session.{
  Wire, ok, stuck, champ_ronde, chaine_ronde, remplacer_chaine, reecrire_chaine, for_reste,
}
use splatoon.Session.Fields.{
  Champ, IsChamp, ecrits, champs, champ_chaine, champ_chaine-IsChamp, champs-ecrits, est_chaine,
  ajout, ecrits-ajout,
}
use splatoon.Session.Read.{champs-IsChamp, IsChamp-bytes}
use splatoon.Session.Loop.{IsPanne, for_reste-traduire, for_reste-IsPanne, noter, traduire-map}
use splatoon.Session.Rewrite.{mute_champ, champ-Rejoue, reecrire_champ-ne-stuck}
use mathlib.Core.Path.{fun_ext}

module _ (w : Wire) where
  abbrev pub remplace : ℕ → Text → Champ → Champ
  remplace cible val c = if est_chaine w cible c then champ_chaine w cible val else c

  module _ (cible : ℕ) (val : Text) where
    -- remplacerChaine does what reecrireChamp would with a constant, the error of absence aside.
    chaine_ronde-champ_ronde :
        (b out : Text) (vu : Bool)
        → chaine_ronde w cible val b out vu ≡ champ_ronde w cible (λ _. ok val) b out vu
    unfolding chaine_ronde champ_ronde
    chaine_ronde-champ_ronde b out vu = elim (Option-cases (w.consume_tag b)) [
      | inl no_tag ↦ rw no_tag refl
      | inr ((num, typ, n), read) ↦ elim (Bool-cases (num == cible && typ == w.bytes_type)) [
        | inl hit ↦
            let (p, q) = &&_true (num == cible) _ hit in
            let here : num ≡ cible = (==_iff num cible).0 p in
            let bytes : typ ≡ w.bytes_type = (==_iff typ w.bytes_type).0 q in
            rw (read, hit, here, bytes) refl
        | inr miss ↦ rw (read, miss) refl
      ]
    ]

    same_loop :
        (msg : Text)
        → for_reste (length msg) (chaine_ronde w cible val) msg [] false
          ≡ for_reste (length msg) (champ_ronde w cible (λ _. ok val)) msg [] false
    same_loop msg =
        ap (λ body. for_reste (length msg) body msg [] false)
          (fun_ext (λ b. fun_ext (λ out. fun_ext (λ vu. chaine_ronde-champ_ronde b out vu))))

    remplace_lem :
        (c : Champ) (vu : Bool)
        → IsChamp w c
        → mute_champ w cible (λ _. ok val) c vu
          ≡ ok (remplace cible val c, est_chaine w cible c || vu)
    unfolding mute_champ
    remplace_lem c vu h = elim (Bool-cases (est_chaine w cible c)) [
      | inl hit ↦
          let (p, q) = &&_true (c.num == cible) _ hit in
          let here : c.num ≡ cible = (==_iff c.num cible).0 p in
          let bytes : c.typ ≡ w.bytes_type = (==_iff c.typ w.bytes_type).0 q in
          let (v, read) = IsChamp-bytes w c h q in
          rw (hit, read)
            (λ i. ok (record { num = here i; typ = bytes i; contenu = w.bytes val }, true))
      | inr miss ↦ rw miss refl
    ]

    remplace-IsChamp :
        (c : Champ) → 1 ≤ cible → cible < 2 ^ 31 → IsChamp w c → IsChamp w (remplace cible val c)
    remplace-IsChamp c lo hi h = elim (Bool-cases (est_chaine w cible c)) [
      | inl hit ↦ rw hit (champ_chaine-IsChamp w cible val lo hi)
      | inr miss ↦ rw miss h
    ]

    noter-any :
        (cs : List Champ) (vu : Bool)
        → noter (λ c v. est_chaine w cible c || v) cs vu
          ≡ (if vu then true else any (est_chaine w cible) cs)
    noter-any [] vu = ground arith
    noter-any (c ∷ cs) vu = ground (arith, noter-any cs (est_chaine w cible c || vu))

    remplacer_chaine-ecrits :
        (msg : Text) (cs : List Champ)
        → champs w msg ≡ some cs
        → remplacer_chaine w msg cible val
          ≡ ok (
              ecrits w (
                map (remplace cible val) cs
                ++ ajout w (any (est_chaine w cible) cs) (champ_chaine w cible val)))
    unfolding remplacer_chaine champs
    remplacer_chaine-ecrits msg cs e =
        let run =
          for_reste-traduire w (champ_ronde w cible (λ _. ok val))
            (mute_champ w cible (λ _. ok val)) (champ-Rejoue w cible (λ _. ok val) (λ t e. cc))
            (length msg) msg [] false cs e in
        let pure =
          traduire-map (mute_champ w cible (λ _. ok val)) (remplace cible val)
            (λ c v. est_chaine w cible c || v) cs false
            (All-map (IsChamp w) _ (λ c h vu. remplace_lem c vu h) cs
              (champs-IsChamp w msg cs e)) in
        rw (same_loop msg, run, pure, noter-any cs false)
          (ap ok (
            ecrits-ajout w (any (est_chaine w cible) cs) (map (remplace cible val) cs)
              (champ_chaine w cible val)))

    ajout-IsChamp :
        (vu : Bool)
        → 1 ≤ cible
        → cible < 2 ^ 31
        → All (IsChamp w) (ajout w vu (champ_chaine w cible val))
    ajout-IsChamp true lo hi = tt
    ajout-IsChamp false lo hi = (champ_chaine-IsChamp w cible val lo hi, tt)

    -- Over a wire format with the laws of Wire, on a message that can be read and for a number that
    -- a field can have, remplacerChaine answers a message whose fields are those of the given one,
    -- in order, with the new string in each field of bytes of that number, and with such a field at
    -- the end where there was none.
    pub remplacer_chaine-champs :
        (msg : Text) (cs : List Champ)
        → 1 ≤ cible
        → cible < 2 ^ 31
        → champs w msg ≡ some cs
        → (out : Text) × (remplacer_chaine w msg cible val ≡ ok out)
          × (champs w out
              ≡ some (
                  map (remplace cible val) cs
                  ++ ajout w (any (est_chaine w cible) cs) (champ_chaine w cible val)))
    remplacer_chaine-champs msg cs lo hi e =
        let ds = map (remplace cible val) cs in
        let added = ajout w (any (est_chaine w cible) cs) (champ_chaine w cible val) in
        let good : All (IsChamp w) (ds ++ added) =
          All-append (IsChamp w) ds added
            (All-of-map (IsChamp w) (remplace cible val) cs (
              All-map (IsChamp w) _ (λ c h. remplace-IsChamp c lo hi h) cs
                (champs-IsChamp w msg cs e)))
            (ajout-IsChamp (any (est_chaine w cible) cs) lo hi) in
        (
          ecrits w (ds ++ added),
          remplacer_chaine-ecrits msg cs e,
          champs-ecrits w (ds ++ added) good,
        )

    pub remplacer_chaine-IsPanne :
        (msg : Text) → champs w msg ≡ none → IsPanne (remplacer_chaine w msg cible val)
    unfolding remplacer_chaine champs
    remplacer_chaine-IsPanne msg e =
        let (x, stop) =
          for_reste-IsPanne w (champ_ronde w cible (λ _. ok val)) (mute_champ w cible (λ _. ok val))
            (champ-Rejoue w cible (λ _. ok val) (λ t e. cc)) (length msg) msg [] false (omega arith)
            e in
        (x, rw (same_loop msg, stop) refl)

    remplacer_chaine-ne-stuck : (msg : Text) → remplacer_chaine w msg cible val ≢ stuck
    remplacer_chaine-ne-stuck msg = elim (Option-cases (champs w msg)) [
      | inl none_read ↦ let (x, stop) = remplacer_chaine-IsPanne msg none_read in rw stop (λ e. cc)
      | inr (cs, read) ↦ rw (remplacer_chaine-ecrits msg cs read) (λ e. cc)
    ]

  -- Over a wire format with the laws of Wire, reecrireChaine ends on every message, path and string:
  -- with as many rounds as a message has bytes, no loop runs out of them.
  pub reecrire_chaine-ne-stuck :
      (chemin : List ℕ) (msg val : Text) → reecrire_chaine w msg chemin val ≢ stuck
  unfolding reecrire_chaine
  reecrire_chaine-ne-stuck [] msg val = λ e. cc
  reecrire_chaine-ne-stuck (cible ∷ []) msg val = remplacer_chaine-ne-stuck cible val msg
  reecrire_chaine-ne-stuck (cible ∷ suivant ∷ chemin) msg val =
      reecrire_champ-ne-stuck w cible (λ sous. reecrire_chaine w sous (suivant ∷ chemin) val) msg
        (λ sous. reecrire_chaine-ne-stuck (suivant ∷ chemin) sous val)
