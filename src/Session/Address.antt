-- ===== src/Session/Address.antt =====
-- session_address_rewrite.go: reecrireHotePort and reecrireAdresseSession.
use splatoon.Base.{
  ℕ, ◌^◌, ◌<◌, ◌≡◌, ◌≢◌, refl, ap, Bool, true, false, ◌&&◌, Bool-cases, if◌then◌else◌, ◌==◌, none,
  some, Option-cases, List, [], ◌∷◌, ◌++◌, map, any, All, All-map, All-append, All-of-map,
  All-always, length, drop, Text, inl, inr, arith, &&_true,
}
use splatoon.Session.{
  Wire, Issue, ok, stuck, ◌>>=◌, champ_hote, champ_port, hote_illisible, port_illisible,
  etiquette_de_session_illisible, sous_champ_illisible, hote_port_ronde, reecrire_hote_port,
}
use splatoon.Session.Fields.{
  Champ, IsChamp, ecrit, ecrits, lire_champ, champs, champ_chaine, champ_varint,
  champ_chaine-IsChamp, champ_varint-IsChamp, champs-ecrits, est_chaine, ajout, ecrits-ajout,
}
use splatoon.Session.Read.{
  Lu, lire_champ_inv, lire_champ-none, bytes_of, no_bytes_of, champs-IsChamp, varint_of,
  no_varint_of,
}
use splatoon.Session.Loop.{
  IsPanne, Rejoue, for_reste-traduire, for_reste-IsPanne, noter, traduire-map,
}

module _ (w : Wire) where
  abbrev pub est_varint : ℕ → Champ → Bool
  est_varint cible c = c.num == cible && c.typ == w.varint_type

  module _ (hote : Text) (port : ℕ) where
    -- What reecrireHotePort makes of one field, and which of the two it has seen.
    abbrev pub avec_adresse : Champ → Champ
    avec_adresse c =
        if est_chaine w champ_hote c
        then champ_chaine w champ_hote hote
        else if est_varint champ_port c
        then champ_varint w champ_port port
        else c

    abbrev pub vu_adresse : Champ → Bool × Bool → Bool × Bool
    vu_adresse c v =
        if est_chaine w champ_hote c
        then (true, v.1)
        else if est_varint champ_port c
        then (v.0, true)
        else v

    or-true : (b : Bool) → (if b then true else true) ≡ true
    or-true true = refl
    or-true false = refl

    or-false : (b : Bool) → b ≡ (if b then true else false)
    or-false true = refl
    or-false false = refl

    abbrev adresse_ronde : Champ → Bool × Bool → Issue (Champ × (Bool × Bool))
    adresse_ronde c v = ok (avec_adresse c, vu_adresse c v)

    adresse_lisible :
        (b out : Text) (v : Bool × Bool) (c : Champ) (rest : Text)
        → Lu w b c rest
        → hote_port_ronde w hote port b out v
          ≡ (adresse_ronde c v >>= λ p. ok (rest, out ++ ecrit w p.0, p.1))
    unfolding hote_port_ronde
    adresse_lisible b out (vh, vp) c rest r = elim (Bool-cases (est_chaine w champ_hote c)) [
      | inl hit ↦
          let (v, read, content) = bytes_of w b c rest r (&&_true (c.num == champ_hote) _ hit).1 in
          rw (r.tag_lu, hit, read, r.rest_lu) refl
      | inr miss ↦ elim (Bool-cases (est_varint champ_port c)) [
        | inl hit ↦
            let (v, read) =
              varint_of w (drop r.etiquette b) c r.valeur r.valeur_lue
                (&&_true (c.num == champ_port) _ hit).1 in
            rw (r.tag_lu, miss, hit, read, r.rest_lu) refl
        | inr miss2 ↦ rw (r.tag_lu, miss, miss2, r.valeur_lue, r.rest_lu) (rw (← r.contenu_lu) refl)
      ]
    ]

    adresse_illu :
        (b out : Text) (v : Bool × Bool)
        → lire_champ w b ≡ none
        → IsPanne (hote_port_ronde w hote port b out v)
    unfolding hote_port_ronde
    adresse_illu b out (vh, vp) e = elim (lire_champ-none w b e) [
      | inl no_tag ↦ (etiquette_de_session_illisible, rw no_tag refl)
      | inr ((num, typ, n), read, no_value) ↦
          elim (Bool-cases (num == champ_hote && typ == w.bytes_type)) [
            | inl hit ↦
                let no_bytes =
                  no_bytes_of w num typ (drop n b) no_value (&&_true (num == champ_hote) _ hit).1 in
                (hote_illisible, rw (read, hit, no_bytes) refl)
            | inr miss ↦ elim (Bool-cases (num == champ_port && typ == w.varint_type)) [
              | inl hit ↦
                  let no_varint =
                    no_varint_of w num typ (drop n b) no_value
                      (&&_true (num == champ_port) _ hit).1 in
                  (port_illisible, rw (read, miss, hit, no_varint) refl)
              | inr miss2 ↦ (sous_champ_illisible num, rw (read, miss, miss2, no_value) refl)
            ]
          ]
    ]

    adresse-Rejoue : Rejoue w (hote_port_ronde w hote port) adresse_ronde
    adresse-Rejoue = record {
      lisible = λ b out v c rest e. adresse_lisible b out v c rest (lire_champ_inv w b c rest e);
      illisible = adresse_illu;
      decide = λ c v e. cc;
    }

    -- The fields of the GameSession afterwards: the host and the port stand at the end where they
    -- were missing.
    abbrev pub adressee : List Champ → List Champ
    adressee cs =
        (map avec_adresse cs
          ++ ajout w (any (est_chaine w champ_hote) cs) (champ_chaine w champ_hote hote))
        ++ ajout w (any (est_varint champ_port) cs) (champ_varint w champ_port port)

    noter-vus :
        (cs : List Champ) (v : Bool × Bool)
        → noter vu_adresse cs v ≡ (
          (if v.0 then true else any (est_chaine w champ_hote) cs),
          (if v.1 then true else any (est_varint champ_port) cs),
        )
    noter-vus [] (vh, vp) = λ i. (or-false vh i, or-false vp i)
    noter-vus (c ∷ cs) (vh, vp) = elim (Bool-cases (est_chaine w champ_hote c)) [
      | inl hit ↦
          let no_port : est_varint champ_port c ≡ false = ground arith in
          rw (hit, no_port, or-true vh) (noter-vus cs (true, vp))
      | inr miss ↦ elim (Bool-cases (est_varint champ_port c)) [
        | inl hit ↦ rw (miss, hit, or-true vp) (noter-vus cs (vh, true))
        | inr miss2 ↦ rw (miss, miss2) (noter-vus cs (vh, vp))
      ]
    ]

    pub reecrire_hote_port-ecrits :
        (gs : Text) (cs : List Champ)
        → champs w gs ≡ some cs
        → reecrire_hote_port w gs hote port ≡ ok (ecrits w (adressee cs))
    unfolding reecrire_hote_port champs
    reecrire_hote_port-ecrits gs cs e =
        let run =
          for_reste-traduire w (hote_port_ronde w hote port) adresse_ronde adresse-Rejoue
            (length gs) gs [] (false, false) cs e in
        let pure =
          traduire-map adresse_ronde avec_adresse vu_adresse cs (false, false)
            (All-always _ cs (λ c v. refl)) in
        rw
          (
            run,
            pure,
            noter-vus cs (false, false),
            ecrits-ajout w (any (est_chaine w champ_hote) cs) (map avec_adresse cs)
                (champ_chaine w champ_hote hote),
          )
          (ap ok (
            ecrits-ajout w (any (est_varint champ_port) cs)
              (map avec_adresse cs
                ++ ajout w (any (est_chaine w champ_hote) cs) (champ_chaine w champ_hote hote))
              (champ_varint w champ_port port)))

    avec_adresse-IsChamp : (c : Champ) → port < 2 ^ 32 → IsChamp w c → IsChamp w (avec_adresse c)
    avec_adresse-IsChamp c small h = elim (Bool-cases (est_chaine w champ_hote c)) [
      | inl hit ↦ rw hit (champ_chaine-IsChamp w champ_hote hote (omega arith) (omega arith))
      | inr miss ↦ elim (Bool-cases (est_varint champ_port c)) [
        | inl hit ↦
            rw (miss, hit)
              (champ_varint-IsChamp w champ_port port (omega arith) (omega arith) (omega arith))
        | inr miss2 ↦ rw (miss, miss2) h
      ]
    ]

    ajout-IsChamp : (vu : Bool) (c : Champ) → IsChamp w c → All (IsChamp w) (ajout w vu c)
    ajout-IsChamp true c h = tt
    ajout-IsChamp false c h = (h, tt)

    adressee-IsChamp :
        (cs : List Champ) → port < 2 ^ 32 → All (IsChamp w) cs → All (IsChamp w) (adressee cs)
    adressee-IsChamp cs small h =
        All-append (IsChamp w) _ _
          (All-append (IsChamp w) (map avec_adresse cs) _
            (All-of-map (IsChamp w) avec_adresse cs
              (All-map (IsChamp w) _ (λ c k. avec_adresse-IsChamp c small k) cs h))
            (ajout-IsChamp (any (est_chaine w champ_hote) cs) (champ_chaine w champ_hote hote)
              (champ_chaine-IsChamp w champ_hote hote (omega arith) (omega arith))))
          (ajout-IsChamp (any (est_varint champ_port) cs) (champ_varint w champ_port port)
            (champ_varint-IsChamp w champ_port port (omega arith) (omega arith) (omega arith)))

    pub reecrire_hote_port-champs :
        (gs : Text) (cs : List Champ)
        → port < 2 ^ 32
        → champs w gs ≡ some cs
        → (out : Text) × (reecrire_hote_port w gs hote port ≡ ok out)
          × (champs w out ≡ some (adressee cs))
    reecrire_hote_port-champs gs cs small e = (
      ecrits w (adressee cs),
      reecrire_hote_port-ecrits gs cs e,
      champs-ecrits w (adressee cs) (adressee-IsChamp cs small (champs-IsChamp w gs cs e)),
    )

    pub reecrire_hote_port-IsPanne :
        (gs : Text) → champs w gs ≡ none → IsPanne (reecrire_hote_port w gs hote port)
    unfolding reecrire_hote_port champs
    reecrire_hote_port-IsPanne gs e =
        let (x, stop) =
          for_reste-IsPanne w (hote_port_ronde w hote port) adresse_ronde adresse-Rejoue (length gs)
            gs [] (false, false) (omega arith) e in
        (x, rw stop refl)

    pub reecrire_hote_port-ne-stuck : (gs : Text) → reecrire_hote_port w gs hote port ≢ stuck
    reecrire_hote_port-ne-stuck gs = elim (Option-cases (champs w gs)) [
      | inl none_read ↦ let (x, stop) = reecrire_hote_port-IsPanne gs none_read in rw stop (λ e. cc)
      | inr (cs, read) ↦ rw (reecrire_hote_port-ecrits gs cs read) (λ e. cc)
    ]
