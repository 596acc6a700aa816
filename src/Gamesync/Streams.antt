-- ===== src/Gamesync/Streams.antt =====
-- gamesync.go: the sessions of the consoles, the channels that wake their streams, and a departure.
use splatoon.Base.{
  ℕ, ◌+◌, ◌≤◌, ◌≡◌, Bool, true, false, not, ◌&&◌, ◌||◌, Bool-cases, Option, none, some, [], ◌∷◌,
  if◌then◌else◌, ltb, ◌==◌, Text, is_empty, text_eq, text_eq_iff, Assoc, lookup, inl, inr, arith,
}

-- gsSessionInfo, as far as the wake-ups and a departure read it; `ident` stands for its pointer.
pub record GsSessionInfo : Type 0 where
  pub ident : ℕ
  pub uid : Text
  pub gsid : Text

-- What waits in each channel: a channel is a number, and holds at most eight signals.
abbrev pub Canaux : Type 0
Canaux = ℕ → ℕ

-- The send of a select with a default: a full channel drops it.
unfoldable pub envoyer : Option ℕ → Canaux → Canaux
envoyer none a = a
envoyer (some c) a = λ i. if i == c && ltb (a i) 8 then a i + 1 else a i

unfoldable pub wake : Assoc ℕ → Text → Canaux → Canaux
unfolding envoyer lookup
wake wakers uss a = if is_empty uss then a else envoyer (lookup uss wakers) a

-- The loop over the sessions of the same game.
unfoldable pub prevenir_les_autres : Assoc ℕ → Text → Text → Assoc GsSessionInfo → Canaux → Canaux
unfolding envoyer lookup
prevenir_les_autres wakers uss gsid [] a = a
prevenir_les_autres wakers uss gsid ((u, s) ∷ sess) a =
    prevenir_les_autres wakers uss gsid sess
      (if text_eq u uss || not (text_eq s.gsid gsid) then a else envoyer (lookup u wakers) a)

unfoldable pub reveiller_la_partie : Bool → Assoc GsSessionInfo → Assoc ℕ → Text → Canaux → Canaux
unfolding wake prevenir_les_autres lookup
reveiller_la_partie reveilsolo sess wakers uss a =
    if is_empty uss then a else if reveilsolo then wake wakers uss a else (elim (lookup uss sess) [
      | none ↦ wake wakers uss a
      | some moi ↦
          if is_empty moi.gsid
          then wake wakers uss a
          else prevenir_les_autres wakers uss moi.gsid sess (wake wakers uss a)
    ])

lookup-here :
    (j u : Text) (t s : GsSessionInfo) (sess : Assoc GsSessionInfo)
    → text_eq j u ≡ true
    → lookup u ((j, t) ∷ sess) ≡ some s
    → t ≡ s
unfolding lookup
lookup-here j u t s sess e h = some-inj (rw e at h)
  where
    some-inj : {x y : GsSessionInfo} → some x ≡ some y → x ≡ y
    some-inj p = cc

lookup-further :
    (j u : Text) (t s : GsSessionInfo) (sess : Assoc GsSessionInfo)
    → text_eq j u ≡ false
    → lookup u ((j, t) ∷ sess) ≡ some s
    → lookup u sess ≡ some s
unfolding lookup
lookup-further j u t s sess e h = rw e at h

envoyer-kept : (o : Option ℕ) (a : Canaux) (c : ℕ) → a c ≤ envoyer o a c
unfolding envoyer
envoyer-kept none a c = omega arith
envoyer-kept (some d) a c = ground arith

envoyer-there : (a : Canaux) (c : ℕ) → 1 ≤ envoyer (some c) a c
unfolding envoyer
envoyer-there a c = ground arith

prevenir_les_autres-kept :
    (wakers : Assoc ℕ) (uss gsid : Text) (sess : Assoc GsSessionInfo) (a : Canaux) (c : ℕ)
    → a c ≤ prevenir_les_autres wakers uss gsid sess a c
unfolding prevenir_les_autres
prevenir_les_autres-kept wakers uss gsid [] a c = omega arith
prevenir_les_autres-kept wakers uss gsid ((u, s) ∷ sess) a c =
    elim (Bool-cases (text_eq u uss || not (text_eq s.gsid gsid))) [
      | inl skipped ↦ rw skipped (prevenir_les_autres-kept wakers uss gsid sess a c)
      | inr sent ↦ rw sent (
          omega (
            arith,
            prevenir_les_autres-kept wakers uss gsid sess (envoyer (lookup u wakers) a) c,
            envoyer-kept (lookup u wakers) a c,
          ))
    ]

prevenir_les_autres-there :
    (wakers : Assoc ℕ) (uss gsid u : Text) (s : GsSessionInfo) (c : ℕ) (sess : Assoc GsSessionInfo)
    (a : Canaux)
    → text_eq u uss ≡ false
    → text_eq s.gsid gsid ≡ true
    → lookup u wakers ≡ some c
    → lookup u sess ≡ some s
    → 1 ≤ prevenir_les_autres wakers uss gsid sess a c
unfolding prevenir_les_autres
prevenir_les_autres-there wakers uss gsid u s c [] a d g w h = unfold lookup in ground arith
prevenir_les_autres-there wakers uss gsid u s c ((j, t) ∷ sess) a d g w h =
    elim (Bool-cases (text_eq j u)) [
      | inl same ↦
          let is_u : j ≡ u = (text_eq_iff j u).0 same in
          let is_s : t ≡ s = lookup-here j u t s sess same h in
          rw (is_u, is_s, d, g, w)
            (omega (
              arith,
              prevenir_les_autres-kept wakers uss gsid sess (envoyer (some c) a) c,
              envoyer-there a c,
            ))
      | inr differ ↦
          prevenir_les_autres-there wakers uss gsid u s c sess _ d g w
            (lookup-further j u t s sess differ h)
    ]

-- With the flag reveilsolo off, when a session of a named game writes, reveillerLaPartie leaves at
-- least one signal in the channel of every session of that game that has one, the writer's included.
pub reveiller_la_partie-there :
    (sess : Assoc GsSessionInfo) (wakers : Assoc ℕ) (uss u : Text) (moi s : GsSessionInfo) (c : ℕ)
    (a : Canaux)
    → is_empty uss ≡ false
    → lookup uss sess ≡ some moi
    → is_empty moi.gsid ≡ false
    → lookup u sess ≡ some s
    → text_eq s.gsid moi.gsid ≡ true
    → lookup u wakers ≡ some c
    → 1 ≤ reveiller_la_partie false sess wakers uss a c
unfolding reveiller_la_partie wake
reveiller_la_partie-there sess wakers uss u moi s c a named here game there same listens =
    elim (Bool-cases (text_eq u uss)) [
      | inl author ↦
          let is_u : u ≡ uss = (text_eq_iff u uss).0 author in
          rw (named, here, game, rw is_u at listens)
            (rw named (
              omega (
                arith,
                prevenir_les_autres-kept wakers uss moi.gsid sess (envoyer (some c) a) c,
                envoyer-there a c,
              )))
      | inr other ↦
          rw (named, here, game)
            (prevenir_les_autres-there wakers uss moi.gsid u s c sess _ other same listens there)
    ]
