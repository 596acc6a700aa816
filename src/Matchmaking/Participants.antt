-- ===== src/Matchmaking/Participants.antt =====
-- matchmaking.go: the register of the players of each game session.
use splatoon.Base.{
  ap, sym, subst, ◌≡◌, refl, true, false, not, ◌&&◌, ◌||◌, inl, inr, none, some, List, [], ◌∷◌,
  if◌then◌else◌, Text, is_empty, text_eq, text_eq_iff, text_eq_refl, keep, Assoc, lookup, insert,
  erase, lookup-insert, lookup-erase, Bool-cases, arith, All, AllPairs, All-map, AllPairs-keep,
}
use splatoon.Matchmaking.Types.{UserSession}

-- The entry of the same user is replaced where it stands; a new user goes to the end.
unfoldable pub replace_or_append : List UserSession → UserSession → List UserSession
replace_or_append [] us = us ∷ []
replace_or_append (d ∷ liste) us =
    if text_eq d.user us.user && not (is_empty us.user)
    then us ∷ liste
    else d ∷ replace_or_append liste us

abbrev pub participants_de : Text → Assoc (List UserSession) → List UserSession
participants_de gsid m = elim (lookup gsid m) [ none ↦ [] | some l ↦ l ]

unfoldable pub noter_participant :
    Text → UserSession → Assoc (List UserSession) → Assoc (List UserSession)
unfolding replace_or_append
noter_participant gsid us m =
    if is_empty gsid then m else insert gsid (replace_or_append (participants_de gsid m) us) m

unfoldable pub put_or_delete :
    Text → List UserSession → Assoc (List UserSession) → Assoc (List UserSession)
put_or_delete gsid [] m = erase gsid m
put_or_delete gsid (d ∷ garde) m = insert gsid (d ∷ garde) m

unfoldable pub oublier_participant :
    Text → Text → Assoc (List UserSession) → Assoc (List UserSession)
unfolding put_or_delete
oublier_participant gsid user m =
    if is_empty gsid || is_empty user
    then m
    else put_or_delete gsid (keep (λ d. not (text_eq d.user user)) (participants_de gsid m)) m

-- No two entries are of one named user.
abbrev pub IsRoster : List UserSession → Type 0
IsRoster = AllPairs (λ d e. (text_eq d.user e.user && not (is_empty d.user)) ≡ false)

All-replace {κ} :
    (P : UserSession → Type κ) (us : UserSession) (liste : List UserSession)
    → P us
    → All P liste
    → All P (replace_or_append liste us)
unfolding replace_or_append
All-replace P us [] h hs = (h, tt)
All-replace P us (d ∷ liste) h hs =
    elim (Bool-cases (text_eq d.user us.user && not (is_empty us.user))) [
      | inl e ↦ rw e (h, hs.1)
      | inr e ↦ rw e (hs.0, All-replace P us liste h hs.1)
    ]

replace_or_append-IsRoster :
    (us : UserSession) (liste : List UserSession)
    → IsRoster liste
    → IsRoster (replace_or_append liste us)
unfolding replace_or_append
replace_or_append-IsRoster us [] h = (tt, tt)
replace_or_append-IsRoster us (d ∷ liste) h =
    elim (Bool-cases (text_eq d.user us.user && not (is_empty us.user))) [
      | inl e ↦ rw e (
        All-map _ _
            (λ x p. ground (
              arith,
              text_eq_iff d.user us.user,
              text_eq_iff d.user x.user,
              text_eq_iff us.user x.user,
            ))
            liste h.0,
        h.1,
      )
      | inr e ↦ rw e (
        All-replace _ us liste (ground (arith, text_eq_iff d.user us.user)) h.0,
        replace_or_append-IsRoster us liste h.1,
      )
    ]

-- Every register keeps one entry for a user.
pub record OnePerUser (m : Assoc (List UserSession)) : Type 0 where
  pub roster : (gsid : Text) → IsRoster (participants_de gsid m)

participants-insert :
    (k g : Text) (l : List UserSession) (m : Assoc (List UserSession))
    → participants_de g (insert k l m) ≡ (if text_eq k g then l else participants_de g m)
participants-insert k g l m = ground (arith, lookup-insert k g l m)

participants-erase :
    (k g : Text) (m : Assoc (List UserSession))
    → participants_de g (erase k m) ≡ (if text_eq k g then [] else participants_de g m)
participants-erase k g m = ground (arith, lookup-erase k g m)

-- After the register is written at one key, it reads as before elsewhere.
pub participants-put_or_delete :
    (k g : Text) (l : List UserSession) (m : Assoc (List UserSession))
    → participants_de g (put_or_delete k l m) ≡ (if text_eq k g then l else participants_de g m)
unfolding put_or_delete
participants-put_or_delete k g [] m = participants-erase k g m
participants-put_or_delete k g (d ∷ l) m = participants-insert k g (d ∷ l) m

IsRoster-at :
    (k g : Text) (l l' : List UserSession)
    → IsRoster l
    → IsRoster l'
    → IsRoster (if text_eq k g then l else l')
IsRoster-at k g l l' h h' = elim (Bool-cases (text_eq k g)) [ inl e ↦ rw e h | inr e ↦ rw e h' ]

-- Registering a user, whether new to the game session or there under an older session, and removing
-- one keep at most one entry for each named user in every game session.
pub noter_participant-OnePerUser :
    (gsid : Text) (us : UserSession) (m : Assoc (List UserSession))
    → OnePerUser m
    → OnePerUser (noter_participant gsid us m)
unfolding noter_participant
noter_participant-OnePerUser gsid us m h = elim (Bool-cases (is_empty gsid)) [
  | inl e ↦ rw e h
  | inr e ↦ rw e (record {
    roster = λ g.
        subst IsRoster
          (sym (participants-insert gsid g (replace_or_append (participants_de gsid m) us) m))
          (IsRoster-at gsid g (replace_or_append (participants_de gsid m) us) (participants_de g m)
            (replace_or_append-IsRoster us (participants_de gsid m) (h.roster gsid)) (h.roster g));
  })
]

-- After oublierParticipant for a named game session and a named user, that session lists the other
-- users in their order, without the user, and every other session lists what it listed.
pub oublier_participant_lem :
    (gsid user g : Text) (m : Assoc (List UserSession))
    → is_empty gsid ≡ false
    → is_empty user ≡ false
    → participants_de g (oublier_participant gsid user m) ≡ (
        if text_eq gsid g
        then keep (λ d. not (text_eq d.user user)) (participants_de gsid m)
        else participants_de g m)
unfolding oublier_participant
oublier_participant_lem gsid user g m hg hu =
    rw (hg, hu)
      (participants-put_or_delete gsid g
        (keep (λ d. not (text_eq d.user user)) (participants_de gsid m)) m)

pub oublier_participant-OnePerUser :
    (gsid user : Text) (m : Assoc (List UserSession))
    → OnePerUser m
    → OnePerUser (oublier_participant gsid user m)
unfolding oublier_participant
oublier_participant-OnePerUser gsid user m h = elim (Bool-cases (is_empty gsid || is_empty user)) [
  | inl e ↦ rw e h
  | inr e ↦ rw e (record {
    roster = λ g.
        let garde =
          keep (λ (d : UserSession). not (text_eq d.user user)) (participants_de gsid m) in
        subst IsRoster (sym (participants-put_or_delete gsid g garde m)) (
          IsRoster-at gsid g garde (participants_de g m)
            (AllPairs-keep _ _ (participants_de gsid m) (h.roster gsid)) (h.roster g));
  })
]

-- The entries of a user, and those of the others.
abbrev pub entries_of : Text → List UserSession → List UserSession
entries_of user liste = keep (λ d. text_eq d.user user) liste

abbrev pub entries_but : Text → List UserSession → List UserSession
entries_but user liste = keep (λ d. not (text_eq d.user user)) liste

nobody_else :
    (us d : UserSession) (liste : List UserSession)
    → is_empty us.user ≡ false
    → text_eq d.user us.user ≡ true
    → All (λ e. (text_eq d.user e.user && not (is_empty d.user)) ≡ false) liste
    → entries_of us.user liste ≡ []
nobody_else us d [] n e h = refl
nobody_else us d (x ∷ liste) n e h = ground (
  arith,
  nobody_else us d liste n e h.1,
  text_eq_iff d.user us.user,
  text_eq_iff d.user x.user,
  text_eq_iff x.user us.user,
)

replace_lem :
    (us : UserSession) (liste : List UserSession)
    → is_empty us.user ≡ false
    → IsRoster liste
    → (entries_of us.user (replace_or_append liste us) ≡ us ∷ [])
      × (entries_but us.user (replace_or_append liste us) ≡ entries_but us.user liste)
unfolding replace_or_append
replace_lem us [] n h = (rw (text_eq_refl us.user), rw (text_eq_refl us.user))
replace_lem us (d ∷ liste) n h = elim (Bool-cases (text_eq d.user us.user)) [
  | inl e ↦
      rw (e, n, text_eq_refl us.user) (ap (λ l. us ∷ l) (nobody_else us d liste n e h.0), refl)
  | inr e ↦ ground (arith, replace_lem us liste n h.1)
]

-- In a register that lists a named user once in a game session, noterParticipant leaves a named user
-- with exactly the new session in a named game session, and leaves the entries of the other users
-- there as they are and in their order.
pub noter_participant_lem :
    (gsid : Text) (us : UserSession) (m : Assoc (List UserSession))
    → is_empty gsid ≡ false
    → is_empty us.user ≡ false
    → OnePerUser m
    → (entries_of us.user (participants_de gsid (noter_participant gsid us m)) ≡ us ∷ [])
      × (entries_but us.user (participants_de gsid (noter_participant gsid us m))
          ≡ entries_but us.user (participants_de gsid m))
unfolding noter_participant
noter_participant_lem gsid us m g n h =
    let liste = participants_de gsid m in
    rw (g, participants-insert gsid gsid (replace_or_append liste us) m, text_eq_refl gsid)
      (replace_lem us liste n (h.roster gsid))
