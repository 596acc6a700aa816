-- ===== src/Session/Answer.antt =====
-- session_address_rewrite.go: when reecrireAdresseSession answers a message, and when an error.
use splatoon.Base.{
  ℕ, ◌^◌, ◌<◌, ◌≡◌, ◌≢◌, ◌↔◌, refl, sym, ◌∙◌, Bool, true, false, Bool-cases, ◌==◌, some,
  Option-cases, List, [], ◌∷◌, any, All, All-map, All-zip, Text, inl, inr, arith, &&_true,
}
use splatoon.Session.{
  Wire, Issue, ok, stuck, champ_game_session, reecrire_champ, reecrire_hote_port,
  reecrire_adresse_session,
}
use splatoon.Session.Fields.{Champ, IsChamp, champs, ecrits, est_chaine}
use splatoon.Session.Read.{champs-IsChamp, IsChamp-bytes}
use splatoon.Session.Loop.{traduire, bind_inv, traduire-All}
use splatoon.Session.Path.{Contient}
use splatoon.Session.Rewrite.{mute_champ, reecrire_champ-traduire}
use splatoon.Session.Effect.{reecrire_champ-Reecrit, traduire-Reecrit}
use splatoon.Session.Address.{
  reecrire_hote_port-champs, reecrire_hote_port-IsPanne, reecrire_hote_port-ne-stuck,
}

module _ (w : Wire) where
  -- The message can be read, it has a GameSession, and so can each GameSession be.
  unfoldable pub Reecrivable : Text → Type 0
  Reecrivable msg =
      (cs : List Champ) × (champs w msg ≡ some cs)
      × (any (est_chaine w champ_game_session) cs ≡ true)
      × All
          (λ c.
            est_chaine w champ_game_session c ≡ true
            → (gs : Text) × (fs : List Champ) × Contient w c gs × (champs w gs ≡ some fs))
          cs

  module _ (hote : Text) (port : ℕ) (small : port < 2 ^ 32) where
    abbrev muter : Text → Issue Text
    muter gs = reecrire_hote_port w gs hote port

    decided : (gs : Text) → muter gs ≢ stuck
    decided gs = reecrire_hote_port-ne-stuck w hote port gs

    abbrev Lisible : Champ → Type 0
    Lisible c =
        est_chaine w champ_game_session c ≡ true
        → (gs : Text) × (fs : List Champ) × Contient w c gs × (champs w gs ≡ some fs)

    change :
        (c : Champ) (v : Bool)
        → Lisible c
        → (q : Champ × Bool) × (mute_champ w champ_game_session muter c v ≡ ok q)
    unfolding mute_champ
    change c v h = elim (Bool-cases (est_chaine w champ_game_session c)) [
      | inl hit ↦
          let (gs, fs, read, fields) = h hit in
          let (out, done, _) = reecrire_hote_port-champs w hote port gs fs small fields in
          (
            (record { num = c.num; typ = c.typ; contenu = w.bytes out }, true),
            rw (hit, read, done) refl,
          )
      | inr miss ↦ ((c, v), rw miss refl)
    ]

    change-All :
        (cs : List Champ) (v : Bool)
        → All Lisible cs
        → (p : List Champ × Bool) × (traduire (mute_champ w champ_game_session muter) cs v ≡ ok p)
    unfolding traduire
    change-All [] v h = (([], v), refl)
    change-All (c ∷ cs) v h =
        let (q, ge) = change c v h.0 in
        let (p, te) = change-All cs q.1 h.1 in ((q.0 ∷ p.0, p.1), rw (ge, te) refl)

    changed :
        (c : Champ) (v : Bool) (q : Champ × Bool)
        → IsChamp w c
        → mute_champ w champ_game_session muter c v ≡ ok q
        → Lisible c
    unfolding mute_champ
    changed c v q h e hit =
        let (gs, read) = IsChamp-bytes w c h (&&_true (c.num == champ_game_session) _ hit).1 in
        let (out, done, _) = bind_inv (muter gs) _ q (rw (hit, read) at e) in
        elim (Option-cases (champs w gs)) [
          | inl none_read ↦
              let (x, stop) = reecrire_hote_port-IsPanne w hote port gs none_read in cc
          | inr (fs, fields) ↦ (gs, fs, read, fields)
        ]

    -- For a port of 32 bits, over a wire format with the laws of Wire, reecrireAdresseSession
    -- answers a message exactly when the given one can be read to its end as fields, one of them is
    -- a GameSession, and the content of every GameSession can be read as fields as well.
    pub reecrire_adresse_session-Reecrivable :
        (msg : Text)
        → ((out : Text) × (reecrire_adresse_session w msg hote port ≡ ok out)) ↔ Reecrivable msg
    unfolding reecrire_adresse_session Reecrivable
    reecrire_adresse_session-Reecrivable msg = (to, from)
      where
        to :
            (out : Text) × (reecrire_champ w msg champ_game_session muter ≡ ok out)
            → Reecrivable msg
        to (out, e) =
            let (cs, ds, read, _, r, hit) =
              reecrire_champ-Reecrit w champ_game_session muter (omega arith) (omega arith) msg out
                decided e in
            let run = reecrire_champ-traduire w champ_game_session muter msg cs decided read in
            let (p, te, _) =
              bind_inv (traduire (mute_champ w champ_game_session muter) cs false) _ out
                (sym run ∙ e) in
            let each : All (λ c. IsChamp w c → Lisible c) cs =
              traduire-All (mute_champ w champ_game_session muter) (λ c. IsChamp w c → Lisible c)
                (λ c v q ge h. changed c v q h ge) cs false p te in
            (
              cs,
              read,
              sym r.seen ∙ hit,
              All-map _ Lisible (λ c k. k.0 k.1) cs
                  (All-zip (λ c. IsChamp w c → Lisible c) (IsChamp w) cs each
                    (champs-IsChamp w msg cs read)),
            )

        from :
            Reecrivable msg
            → (out : Text) × (reecrire_champ w msg champ_game_session muter ≡ ok out)
        from (cs, read, hit, h) =
            let (p, te) = change-All cs false h in
            let (_, noted) =
              traduire-Reecrit w champ_game_session muter (omega arith) (omega arith) cs false p
                (champs-IsChamp w msg cs read) te in
            let seen : p.1 ≡ true = noted ∙ hit in
            (
              ecrits w p.0,
              reecrire_champ-traduire w champ_game_session muter msg cs decided read
                  ∙ rw (te, seen) refl,
            )
