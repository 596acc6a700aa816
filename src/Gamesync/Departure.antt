-- ===== src/Gamesync/Departure.antt =====
-- gamesync.go: oublierSession, when the stream of a console ends.
use splatoon.Base.{
  ℕ, ◌≡◌, refl, ◌∙◌, Bool, true, false, not, Bool-cases, Option, none, some, List, [], ◌∷◌, ◌++◌,
  if◌then◌else◌, ◌==◌, Text, codes, is_empty, text_eq, text_eq_refl, text_eq_iff, has_prefix, keep,
  Assoc, lookup, lookup-erase, erase, inl, inr,
}
use splatoon.Gamesync.{Store}
use splatoon.Gamesync.Streams.{GsSessionInfo}
use splatoon.Fest.Maison.{npn_tenant}
use splatoon.Matchmaking.Types.{UserSession}
use splatoon.Matchmaking.Participants.{
  oublier_participant, participants_de, oublier_participant_lem,
}
use mathlib.Core.List.{reverse}

-- strings.HasSuffix
unfoldable pub has_suffix : Text → Text → Bool
unfolding has_prefix
has_suffix s p = has_prefix (reverse s) (reverse p)

-- gamesyncServer, with attributsParUss, suiviEffectif and the register of the participants. A value of
-- the first two registers is only forgotten.
pub record Serveur {ℓ} (V : Type ℓ) : Type ℓ where
  pub sess : Assoc GsSessionInfo
  pub last : Option ℕ
  pub store : Store V
  pub attributs : Assoc V
  pub effectifs : Assoc ℕ
  pub participants : Assoc (List UserSession)

-- g.last = nil, where it is that session
abbrev pub sans_dernier : Option GsSessionInfo → Option ℕ → Option ℕ
sans_dernier none last = last
sans_dernier (some i) none = none
sans_dernier (some i) (some d) = if d == i.ident then none else some d

abbrev pub nom_d_utilisateur : Text → Text
nom_d_utilisateur uid = npn_tenant ++ (codes "/users/" ++ uid)

module _ {ℓ} {V : Type ℓ} where
  unfoldable pub oublier_session : Text → Serveur V → Serveur V
  unfolding lookup erase has_suffix oublier_participant
  oublier_session uss g =
      if is_empty uss
      then g
      else let info = lookup uss g.sess in
        record {
          sess = erase uss g.sess;
          last = sans_dernier info g.last;
          store = keep (λ e. not (has_suffix e.0 (b'/' ∷ uss))) g.store;
          attributs = erase uss g.attributs;
          effectifs = erase uss g.effectifs;
          participants = elim info [
            | none ↦ g.participants
            | some i ↦ oublier_participant i.gsid (nom_d_utilisateur i.uid) g.participants
          ];
        }

  either_none : (b : Bool) → ◌≡◌ {A = Option (Assoc V)} none (if b then none else none)
  either_none true = refl
  either_none false = refl

  lookup-keep :
      (p : Text → Bool) (k : Text) (m : Store V)
      → lookup k (keep (λ e. p e.0) m) ≡ (if p k then lookup k m else none)
  unfolding lookup
  lookup-keep p k [] = either_none (p k)
  lookup-keep p k ((j, d) ∷ m) = elim (Bool-cases (text_eq j k)) [
    | inl same ↦
        let is : j ≡ k = (text_eq_iff j k).0 same in
        elim (Bool-cases (p k)) [
          | inl good ↦ rw (is, good, text_eq_refl k) refl
          | inr bad ↦ rw (is, bad) (lookup-keep p k m ∙ rw bad refl)
        ]
    | inr differ ↦ elim (Bool-cases (p j)) [
      | inl good ↦ rw (good, differ) (lookup-keep p k m)
      | inr bad ↦ rw (bad, differ) (lookup-keep p k m)
    ]
  ]

  -- What is left of a session that a player leaves.
  pub record Parti (uss : Text) (i : GsSessionInfo) (g g' : Serveur V) : Type ℓ where
    pub session : (u : Text) → lookup u g'.sess ≡ (if text_eq uss u then none else lookup u g.sess)
    pub documents :
        (k : Text)
        → lookup k g'.store ≡ (if not (has_suffix k (b'/' ∷ uss)) then lookup k g.store else none)
    pub attributes :
        (u : Text) → lookup u g'.attributs ≡ (if text_eq uss u then none else lookup u g.attributs)
    pub roster :
        (gsid : Text)
        → participants_de gsid g'.participants ≡ (
            if text_eq i.gsid gsid
            then keep
                (λ d. not (text_eq d.user (nom_d_utilisateur i.uid)))
                (participants_de i.gsid g.participants)
            else participants_de gsid g.participants)

  -- When a session that the server knows, of a named game, is forgotten: the session and its
  -- attributes are gone and those of no other; the documents whose name ends in its own after a
  -- slash are gone and all others stay; and the register of its game loses the entries of its user,
  -- those of the other games being what they were.
  pub oublier_session-Parti :
      (uss : Text) (i : GsSessionInfo) (g : Serveur V)
      → is_empty uss ≡ false
      → is_empty i.gsid ≡ false
      → lookup uss g.sess ≡ some i
      → Parti uss i g (oublier_session uss g)
  unfolding oublier_session
  oublier_session-Parti uss i g named game here =
      rw (named, here)
        (record {
          session = λ u. lookup-erase uss u g.sess;
          documents = λ k. lookup-keep (λ n. not (has_suffix n (b'/' ∷ uss))) k g.store;
          attributes = λ u. lookup-erase uss u g.attributs;
          roster = λ gsid.
              oublier_participant_lem i.gsid (nom_d_utilisateur i.uid) gsid g.participants game
                refl;
        })
