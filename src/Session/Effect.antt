-- ===== src/Session/Effect.antt =====
-- session_address_rewrite.go: what reecrireChamp has made of the message when it answers one.
use splatoon.Base.{
  ℕ, suc, ◌^◌, ◌≤◌, ◌<◌, ◌≡◌, ◌≢◌, refl, sym, ap, ◌∙◌, subst, Bool, true, false, ◌||◌, Bool-cases,
  if◌then◌else◌, ◌==◌, some, Option-cases, List, [], ◌∷◌, any, keep, not, All, length, Text, inl,
  inr, arith, &&_true, ==_iff,
}
use splatoon.Session.{Wire, Issue, ok, err, stuck, reecrire_champ, champ_absent}
use splatoon.Session.Fields.{
  Champ, IsChamp, ecrits, champs, champ_chaine, champ_chaine-IsChamp, champs-ecrits, est_chaine,
}
use splatoon.Session.Read.{champs-IsChamp, IsChamp-bytes}
use splatoon.Session.Loop.{OnOk, traduire, bind_inv}
use splatoon.Session.Rewrite.{mute_champ, reecrire_champ-traduire, reecrire_champ-IsPanne}

module _ (w : Wire) (cible : ℕ) (muter : Text → Issue Text) where
  unless-absent :
      (b : Bool) (t out : Text)
      → (if b then ok t else err (champ_absent cible)) ≡ ok out
      → (b ≡ true) × (t ≡ out)
  unless-absent true t out e = (refl, cc)
  unless-absent false t out e = cc

  -- The field of that number holds what `muter` answered for a content.
  unfoldable pub Mute : Champ → Type 0
  Mute c =
      est_chaine w cible c ≡ true
      → (avant : Text) × (apres : Text) × (muter avant ≡ ok apres)
        × (c ≡ champ_chaine w cible apres)

  -- The fields `cs` have become `ds`.
  pub record Reecrit (cs ds : List Champ) : Type 0 where
    pub as_many : length ds ≡ length cs
    pub others :
        keep (λ c. not (est_chaine w cible c)) ds ≡ keep (λ c. not (est_chaine w cible c)) cs
    pub seen : any (est_chaine w cible) ds ≡ any (est_chaine w cible) cs
    pub changed : All Mute ds
    pub readable : All (IsChamp w) ds

  -- One field of a number that a field can have.
  record Suite (c : Champ) (vu : Bool) (q : Champ × Bool) : Type 0 where
    noted : q.1 ≡ (est_chaine w cible c || vu)
    same_kind : est_chaine w cible q.0 ≡ est_chaine w cible c
    kept : est_chaine w cible c ≡ false → q.0 ≡ c
    changed : Mute q.0
    readable : IsChamp w q.0

  est_chaine-champ_chaine : (v : Text) → est_chaine w cible (champ_chaine w cible v) ≡ true
  est_chaine-champ_chaine v = ground arith

  mute_champ_hit :
      (c : Champ) (vu : Bool) (v nouveau : Text)
      → est_chaine w cible c ≡ true
      → w.consume_bytes c.contenu ≡ some (v, length c.contenu)
      → muter v ≡ ok nouveau
      → mute_champ w cible muter c vu ≡ ok (champ_chaine w cible nouveau, true)
  unfolding mute_champ
  mute_champ_hit c vu v nouveau hit read mute =
      let (p, q) = &&_true (c.num == cible) _ hit in
      let num_is = (==_iff c.num cible).0 p in
      let typ_is = (==_iff c.typ w.bytes_type).0 q in
      rw (hit, read, mute)
        (λ i. ok (record { num = num_is i; typ = typ_is i; contenu = w.bytes nouveau }, true))

  mute_champ-Suite :
      (c : Champ) (vu : Bool) (q : Champ × Bool)
      → 1 ≤ cible
      → cible < 2 ^ 31
      → IsChamp w c
      → mute_champ w cible muter c vu ≡ ok q
      → Suite c vu q
  unfolding mute_champ Mute
  mute_champ-Suite c vu q lo hi h e = elim (Bool-cases (est_chaine w cible c)) [
    | inl hit ↦
        let (v, read) = IsChamp-bytes w c h (&&_true (c.num == cible) _ hit).1 in
        let (nouveau, mute, _) = bind_inv (muter v) _ q (rw (hit, read) at e) in
        let there = est_chaine-champ_chaine nouveau in
        subst (OnOk (Suite c vu)) (sym (mute_champ_hit c vu v nouveau hit read mute) ∙ e) (record {
          noted = rw hit refl;
          same_kind = there ∙ sym hit;
          kept = λ f. cc;
          changed = λ _. (v, nouveau, mute, refl);
          readable = champ_chaine-IsChamp w cible nouveau lo hi;
        })
    | inr miss ↦ subst (OnOk (Suite c vu)) (rw miss at e) (record {
      noted = rw miss refl;
      same_kind = refl;
      kept = λ f. refl;
      changed = λ t. cc;
      readable = h;
    })
  ]

  -- A field at the head of both lists.
  Reecrit-cons :
      (c : Champ) (vu : Bool) (q : Champ × Bool) (cs ds : List Champ)
      → Suite c vu q
      → Reecrit cs ds
      → Reecrit (c ∷ cs) (q.0 ∷ ds)
  Reecrit-cons c vu q cs ds s r = record {
    as_many = ap suc r.as_many;
    others = elim (Bool-cases (est_chaine w cible c)) [
      | inl hit ↦ rw (s.same_kind, hit) r.others
      | inr miss ↦ rw (s.kept miss, miss) (ap (λ t. c ∷ t) r.others)
    ];
    seen = rw (s.same_kind, r.seen) refl;
    changed = (s.changed, r.changed);
    readable = (s.readable, r.readable);
  }

  module _ (lo : 1 ≤ cible) (hi : cible < 2 ^ 31) where
    pub traduire-Reecrit :
        (cs : List Champ) (vu : Bool) (p : List Champ × Bool)
        → All (IsChamp w) cs
        → traduire (mute_champ w cible muter) cs vu ≡ ok p
        → Reecrit cs p.0 × (p.1 ≡ (if vu then true else any (est_chaine w cible) cs))
    unfolding traduire
    traduire-Reecrit [] vu p h e =
        subst
          (OnOk (λ (p : List Champ × Bool). Reecrit [] p.0 × (p.1 ≡ (if vu then true else false))))
          e
          (
            record { as_many = refl; others = refl; seen = refl; changed = tt; readable = tt },
            ground arith,
          )
    traduire-Reecrit (c ∷ cs) vu p h e =
        let (q, ge, te) = bind_inv (mute_champ w cible muter c vu) _ p e in
        let (t, re, fin) = bind_inv (traduire (mute_champ w cible muter) cs q.1) _ p te in
        let s = mute_champ-Suite c vu q lo hi h.0 ge in
        let (r, noted) = traduire-Reecrit cs q.1 t h.1 re in
        subst
          (OnOk (λ (p : List Champ × Bool).
            Reecrit (c ∷ cs) p.0
            × (p.1 ≡ (if vu then true else any (est_chaine w cible) (c ∷ cs)))))
          fin (Reecrit-cons c vu q cs t.0 s r, ground (arith, noted, s.noted))

    pub reecrire_champ-Reecrit :
        (msg out : Text)
        → ((t : Text) → muter t ≢ stuck)
        → reecrire_champ w msg cible muter ≡ ok out
        → (cs : List Champ) × (ds : List Champ) × (champs w msg ≡ some cs)
          × (champs w out ≡ some ds)
          × Reecrit cs ds
          × (any (est_chaine w cible) ds ≡ true)
    reecrire_champ-Reecrit msg out d e = elim (Option-cases (champs w msg)) [
      | inl none_read ↦ let (x, stop) = reecrire_champ-IsPanne w cible muter msg d none_read in cc
      | inr (cs, read) ↦
          let run = reecrire_champ-traduire w cible muter msg cs d read in
          let (p, te, fin) =
            bind_inv (traduire (mute_champ w cible muter) cs false) _ out (sym run ∙ e) in
          let (r, noted) = traduire-Reecrit cs false p (champs-IsChamp w msg cs read) te in
          let (hit, written) = unless-absent p.1 (ecrits w p.0) out fin in
          (
            cs,
            p.0,
            read,
            rw (← written) (champs-ecrits w p.0 r.readable),
            r,
            r.seen ∙ sym noted ∙ hit,
          )
    ]
