-- ===== src/Session/Rewrite.antt =====
-- session_address_rewrite.go: reecrireChamp, remplacerChaine and reecrireChaine.
use splatoon.Base.{
  ℕ, ◌≡◌, ◌≢◌, refl, sym, Bool, true, false, ◌&&◌, Bool-cases, if◌then◌else◌, ◌==◌, none, some,
  Option-cases, List, [], ◌++◌, length, drop, Text, inl, inr, arith, &&_true,
}
use splatoon.Session.{
  Wire, Issue, ok, err, stuck, etiquette_illisible, champ_illisible, champ_absent, ◌>>=◌, lu,
  champ_ronde, reecrire_champ,
}
use splatoon.Session.Read.{Lu, lire_champ_inv, lire_champ-none, bytes_of, no_bytes_of}
use splatoon.Session.Fields.{Champ, ecrit, ecrits, lire_champ, champs}
use splatoon.Session.Loop.{
  IsPanne, traduire, Rejoue, for_reste-traduire, for_reste-IsPanne, traduire-ne-stuck, bind-ok,
  Issue-cases,
}

module _ (w : Wire) where
  -- reecrireChamp on one field.
  unfoldable pub mute_champ : ℕ → (Text → Issue Text) → Champ → Bool → Issue (Champ × Bool)
  mute_champ cible muter c trouve =
      if c.num == cible && c.typ == w.bytes_type
      then (do
        (val, _) ← lu (champ_illisible cible) (w.consume_bytes c.contenu)
        nouveau ← muter val
        ok (record { num = c.num; typ = c.typ; contenu = w.bytes nouveau }, true))
      else ok (c, trouve)

  unless-ne-stuck :
      (b : Bool) (t : Text) (n : ℕ) → (if b then ok t else err (champ_absent n)) ≢ stuck
  unless-ne-stuck true t n e = cc
  unless-ne-stuck false t n e = cc

  module _ (cible : ℕ) (muter : Text → Issue Text) where
    champ_lisible :
        (b out : Text) (vu : Bool) (c : Champ) (rest : Text)
        → Lu w b c rest
        → champ_ronde w cible muter b out vu
          ≡ (mute_champ cible muter c vu >>= λ p. ok (rest, out ++ ecrit w p.0, p.1))
    unfolding champ_ronde mute_champ
    champ_lisible b out vu c rest r = elim (Bool-cases (c.num == cible && c.typ == w.bytes_type)) [
      | inl hit ↦
          let (v, read, content) = bytes_of w b c rest r (&&_true (c.num == cible) _ hit).1 in
          rw (r.tag_lu, hit, read, r.contenu_lu, content, r.rest_lu) (sym (bind-ok (muter v) _ _))
      | inr miss ↦ rw (r.tag_lu, miss, r.valeur_lue, r.rest_lu) (rw (← r.contenu_lu) refl)
    ]

    champ_illu :
        (b out : Text) (vu : Bool)
        → lire_champ w b ≡ none
        → IsPanne (champ_ronde w cible muter b out vu)
    unfolding champ_ronde
    champ_illu b out vu e = elim (lire_champ-none w b e) [
      | inl no_tag ↦ (etiquette_illisible, rw no_tag refl)
      | inr ((num, typ, n), read, no_value) ↦
          elim (Bool-cases (num == cible && typ == w.bytes_type)) [
            | inl hit ↦
                let no_bytes =
                  no_bytes_of w num typ (drop n b) no_value (&&_true (num == cible) _ hit).1 in
                (champ_illisible cible, rw (read, hit, no_bytes) refl)
            | inr miss ↦ (champ_illisible num, rw (read, miss, no_value) refl)
          ]
    ]

    champ_decide :
        ((t : Text) → muter t ≢ stuck)
        → (c : Champ) (vu : Bool) → mute_champ cible muter c vu ≢ stuck
    unfolding mute_champ
    champ_decide d c vu = elim (Bool-cases (c.num == cible && c.typ == w.bytes_type)) [
      | inl hit ↦ elim (Option-cases (w.consume_bytes c.contenu)) [
        | inl no_bytes ↦ rw (hit, no_bytes) (λ e. cc)
        | inr ((v, m), read) ↦ elim (Issue-cases (muter v) (d v)) [
          | inl (t, me) ↦ rw (hit, read, me) (λ e. cc)
          | inr (x, me) ↦ rw (hit, read, me) (λ e. cc)
        ]
      ]
      | inr miss ↦ rw miss (λ e. cc)
    ]

    pub champ-Rejoue :
        ((t : Text) → muter t ≢ stuck)
        → Rejoue w (champ_ronde w cible muter) (mute_champ cible muter)
    champ-Rejoue d = record {
      lisible = λ b out vu c rest e. champ_lisible b out vu c rest (lire_champ_inv w b c rest e);
      illisible = champ_illu;
      decide = champ_decide d;
    }

    pub reecrire_champ-traduire :
        (msg : Text) (cs : List Champ)
        → ((t : Text) → muter t ≢ stuck)
        → champs w msg ≡ some cs
        → reecrire_champ w msg cible muter ≡ (
            traduire (mute_champ cible muter) cs false >>= λ p.
            if p.1 then ok (ecrits w p.0) else err (champ_absent cible))
    unfolding reecrire_champ champs
    reecrire_champ-traduire msg cs d e =
        rw
          (for_reste-traduire w (champ_ronde w cible muter) (mute_champ cible muter)
            (champ-Rejoue d) (length msg) msg [] false cs e)
          (bind-ok (traduire (mute_champ cible muter) cs false) _ _)

    pub reecrire_champ-IsPanne :
        (msg : Text)
        → ((t : Text) → muter t ≢ stuck)
        → champs w msg ≡ none
        → IsPanne (reecrire_champ w msg cible muter)
    unfolding reecrire_champ champs
    reecrire_champ-IsPanne msg d e =
        let (x, stop) =
          for_reste-IsPanne w (champ_ronde w cible muter) (mute_champ cible muter) (champ-Rejoue d)
            (length msg) msg [] false (omega arith) e in
        (x, rw stop refl)

    -- The loop ends.
    pub reecrire_champ-ne-stuck :
        (msg : Text) → ((t : Text) → muter t ≢ stuck) → reecrire_champ w msg cible muter ≢ stuck
    reecrire_champ-ne-stuck msg d = elim (Option-cases (champs w msg)) [
      | inl none_read ↦ let (x, stop) = reecrire_champ-IsPanne msg d none_read in rw stop (λ e. cc)
      | inr (cs, read) ↦
          let g = mute_champ cible muter in
          let go = traduire-ne-stuck w (champ_ronde w cible muter) g (champ-Rejoue d) cs false in
          rw (reecrire_champ-traduire msg cs d read) (elim (Issue-cases (traduire g cs false) go) [
            | inl (p, te) ↦ rw te (unless-ne-stuck p.1 (ecrits w p.0) cible)
            | inr (x, te) ↦ rw te (λ e. cc)
          ])
    ]
