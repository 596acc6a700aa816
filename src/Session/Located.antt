-- ===== src/Session/Located.antt =====
-- session_address_rewrite.go: reecrireAdresseSession, and where its answer sends the game.
use splatoon.Base.{
  ℕ, ◌^◌, ◌<◌, ◌≡◌, refl, sym, ap, ◌∙◌, subst, Bool, true, false, Bool-cases, not, some,
  Option-cases, List, [], ◌∷◌, ◌++◌, map, any, any-append, keep, All, All-map, All-append,
  All-of-map, All-always, length, Text, inl, inr, arith,
}
use splatoon.Session.{
  Wire, Issue, ok, champ_game_session, champ_hote, champ_port, reecrire_hote_port,
  reecrire_adresse_session,
}
use splatoon.Session.Fields.{Champ, champs, champ_chaine, champ_varint, est_chaine, ajout}
use splatoon.Session.Path.{Contient, Contient-champ_chaine}
use splatoon.Session.Effect.{Mute, reecrire_champ-Reecrit}
use splatoon.Session.Address.{
  est_varint, avec_adresse, adressee, reecrire_hote_port-champs, reecrire_hote_port-IsPanne,
  reecrire_hote_port-ne-stuck,
}
use mathlib.Core.List.{append-nil}

module _ (w : Wire) (hote : Text) (port : ℕ) where
  abbrev est_hote : Champ → Bool
  est_hote = est_chaine w champ_hote

  abbrev est_port : Champ → Bool
  est_port = est_varint w champ_port

  -- The host and the port of a field, if it is one of those two, are the given ones.
  unfoldable pub Vise : Champ → Type 0
  Vise c =
      (est_chaine w champ_hote c ≡ true → c ≡ champ_chaine w champ_hote hote)
      × (est_varint w champ_port c ≡ true → c ≡ champ_varint w champ_port port)

  -- A GameSession with that host and that port, and no other.
  pub record Adresse (fs : List Champ) : Type 0 where
    pub a_hote : any (est_chaine w champ_hote) fs ≡ true
    pub a_port : any (est_varint w champ_port) fs ≡ true
    pub aucun_autre : All Vise fs

  le_hote :
      (est_hote (champ_chaine w champ_hote hote) ≡ true)
      × (est_port (champ_chaine w champ_hote hote) ≡ false)
  le_hote = ground arith

  le_port :
      (est_port (champ_varint w champ_port port) ≡ true)
      × (est_hote (champ_varint w champ_port port) ≡ false)
  le_port = ground arith

  Vise-hote : Vise (champ_chaine w champ_hote hote)
  unfolding Vise
  Vise-hote = ((λ _. refl), λ t. cc le_hote.1)

  Vise-port : Vise (champ_varint w champ_port port)
  unfolding Vise
  Vise-port = ((λ t. cc le_port.1), λ _. refl)

  -- One field is of its kind afterwards, with the new content.
  record Pointe (c : Champ) : Type 0 where
    vise : Vise (avec_adresse w hote port c)
    kind_hote : est_hote (avec_adresse w hote port c) ≡ est_hote c
    kind_port : est_port (avec_adresse w hote port c) ≡ est_port c

  avec_adresse-Pointe : (c : Champ) → Pointe c
  avec_adresse-Pointe c = elim (Bool-cases (est_hote c)) [
    | inl hit ↦
        let new : avec_adresse w hote port c ≡ champ_chaine w champ_hote hote = rw hit refl in
        let no_port : est_port c ≡ false = ground arith in
        record {
          vise = subst Vise (sym new) Vise-hote;
          kind_hote = ap est_hote new ∙ (le_hote.0 ∙ sym hit);
          kind_port = ap est_port new ∙ (le_hote.1 ∙ sym no_port);
        }
    | inr miss ↦ elim (Bool-cases (est_port c)) [
      | inl hit ↦
          let new : avec_adresse w hote port c ≡ champ_varint w champ_port port =
            rw (miss, hit) refl in
          record {
            vise = subst Vise (sym new) Vise-port;
            kind_hote = ap est_hote new ∙ (le_port.1 ∙ sym miss);
            kind_port = ap est_port new ∙ (le_port.0 ∙ sym hit);
          }
      | inr miss2 ↦
          let new : avec_adresse w hote port c ≡ c = rw (miss, miss2) refl in
          record {
            vise = subst Vise (sym new) (unfold Vise in ((λ t. cc), λ t. cc));
            kind_hote = ap est_hote new;
            kind_port = ap est_port new;
          }
    ]
  ]

  any-kind :
      (p : Champ → Bool) (cs : List Champ)
      → All (λ c. p (avec_adresse w hote port c) ≡ p c) cs
      → any p (map (avec_adresse w hote port) cs) ≡ any p cs
  any-kind p [] h = λ i. false
  any-kind p (c ∷ cs) h = rw (h.0, any-kind p cs h.1) (λ i. any p (c ∷ cs))

  -- A field that is added where none was seen.
  any-ajout :
      (p : Champ → Bool) (b : Bool) (ds : List Champ) (c : Champ)
      → any p ds ≡ b
      → p c ≡ true
      → any p (ds ++ ajout w b c) ≡ true
  any-ajout p true ds c e h = rw append-nil e
  any-ajout p false ds c e h = rw (any-append p ds (c ∷ []), e, h) refl

  any-more :
      (p : Champ → Bool) (ds es : List Champ) (b : Bool)
      → any p ds ≡ b
      → any p es ≡ false
      → any p (ds ++ es) ≡ b
  any-more p ds es b e h = ground (arith, any-append p ds es)

  any-left : (p : Champ → Bool) (ds es : List Champ) → any p ds ≡ true → any p (ds ++ es) ≡ true
  any-left p ds es e = ground (arith, any-append p ds es)

  no_port-ajout : (b : Bool) → any est_port (ajout w b (champ_chaine w champ_hote hote)) ≡ false
  no_port-ajout true = refl
  no_port-ajout false = rw (le_hote.1) refl

  ajout-Vise : (b : Bool) (c : Champ) → Vise c → All Vise (ajout w b c)
  ajout-Vise true c h = tt
  ajout-Vise false c h = (h, tt)

  pub adressee-Adresse : (cs : List Champ) → Adresse (adressee w hote port cs)
  adressee-Adresse cs =
      let ds = map (avec_adresse w hote port) cs in
      let hosted = ajout w (any est_hote cs) (champ_chaine w champ_hote hote) in
      let hosts = any-kind est_hote cs (All-always _ cs (λ c. (avec_adresse-Pointe c).kind_hote)) in
      let ports = any-kind est_port cs (All-always _ cs (λ c. (avec_adresse-Pointe c).kind_port)) in
      let pointed : All Vise ds =
        All-of-map Vise (avec_adresse w hote port) cs
          (All-always _ cs (λ c. (avec_adresse-Pointe c).vise)) in
      record {
        a_hote =
            any-left est_hote (ds ++ hosted) _
              (any-ajout est_hote (any est_hote cs) ds _ hosts le_hote.0);
        a_port =
            any-ajout est_port (any est_port cs) (ds ++ hosted) _
              (any-more est_port ds hosted (any est_port cs) ports
                (no_port-ajout (any est_hote cs)))
              le_port.0;
        aucun_autre =
            All-append Vise (ds ++ hosted) _
              (All-append Vise ds hosted pointed (ajout-Vise (any est_hote cs) _ Vise-hote))
              (ajout-Vise (any est_port cs) _ Vise-port);
      }

  -- The field is a GameSession that sends the game to the address.
  unfoldable pub Mene : Champ → Type 0
  Mene c =
      est_chaine w champ_game_session c ≡ true
      → (gs : Text) × (fs : List Champ) × Contient w c gs × (champs w gs ≡ some fs) × Adresse fs

  abbrev autre : Champ → Bool
  autre c = not (est_chaine w champ_game_session c)

  session_done :
      (gs apres : Text)
      → port < 2 ^ 32
      → reecrire_hote_port w gs hote port ≡ ok apres
      → (fs : List Champ) × (champs w apres ≡ some fs) × Adresse fs
  session_done gs apres small e = elim (Option-cases (champs w gs)) [
    | inl none_read ↦ let (x, stop) = reecrire_hote_port-IsPanne w hote port gs none_read in cc
    | inr (cs, read) ↦
        let (out, done, back) = reecrire_hote_port-champs w hote port gs cs small read in
        let same : out ≡ apres = ground arith in
        (adressee w hote port cs, rw (← same) back, adressee-Adresse cs)
  ]

  -- For a port of 32 bits, over a wire format with the laws of Wire: when reecrireAdresseSession
  -- answers a message, the message and the answer can be read as lists of fields of one length, the
  -- fields that are no GameSession are the same in the same order, there is a GameSession, and every
  -- GameSession can be read and has a host and a port among its fields, all its hosts and ports
  -- being the given ones.
  pub reecrire_adresse_session-Mene :
      (msg out : Text)
      → port < 2 ^ 32
      → reecrire_adresse_session w msg hote port ≡ ok out
      → (cs : List Champ) × (ds : List Champ) × (champs w msg ≡ some cs)
        × (champs w out ≡ some ds)
        × (length ds ≡ length cs)
        × (keep autre ds ≡ keep autre cs)
        × (any (est_chaine w champ_game_session) ds ≡ true)
        × All Mene ds
  unfolding reecrire_adresse_session Mene Mute
  reecrire_adresse_session-Mene msg out small e =
      let muter : Text → Issue Text = λ gs. reecrire_hote_port w gs hote port in
      let (cs, ds, read, back, r, hit) =
        reecrire_champ-Reecrit w champ_game_session muter (omega arith) (omega arith) msg out
          (reecrire_hote_port-ne-stuck w hote port) e in
      (
        cs,
        ds,
        read,
        back,
        r.as_many,
        r.others,
        hit,
        All-map (Mute w champ_game_session muter) _
            (λ c m t.
              let (avant, apres, done, is) = m t in
              let (fs, written, at_address) = session_done avant apres small done in
              (
                apres,
                fs,
                rw is (Contient-champ_chaine w champ_game_session apres),
                written,
                at_address,
              ))
            ds r.changed,
      )
