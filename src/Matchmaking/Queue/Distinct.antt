-- ===== src/Matchmaking/Queue/Distinct.antt =====
-- matchmaking.go, waitersForConfigLocked: the waiters of a mode and their identities.
use splatoon.Base.{
  ◌≡◌, true, false, not, ◌&&◌, inl, inr, List, [], ◌∷◌, Text, is_empty, text_eq, text_eq_iff, All,
  AllPairs, All-map, Bool-cases, arith,
}
use splatoon.Matchmaking.Types.{Waiter}
use splatoon.Matchmaking.Queue.{seen_in, wants, waiters_from, waiters_for_config}

-- Two waiters are not of one named player.
abbrev pub OtherPlayer : Waiter → Waiter → Type 0
OtherPlayer w v = (text_eq w.uid v.uid && not (is_empty w.uid)) ≡ false

abbrev Unseen : List Text → Waiter → Type 0
Unseen seen w = (not (is_empty w.uid) && seen_in seen w.uid) ≡ false

All-waiters_from {κ} :
    (P : Waiter → Type κ) (cfg : Text) (seen : List Text) (ws : List Waiter)
    → All P ws
    → All P (waiters_from cfg seen ws)
unfolding waiters_from
All-waiters_from P cfg seen [] h = tt
All-waiters_from P cfg seen (w ∷ ws) h = elim (Bool-cases (not (wants cfg w))) [
  | inl e ↦ rw e (All-waiters_from P cfg seen ws h.1)
  | inr e ↦ elim (Bool-cases (not (is_empty w.uid) && seen_in seen w.uid)) [
    | inl old ↦ rw (e, old) (All-waiters_from P cfg seen ws h.1)
    | inr new ↦ rw (e, new) (h.0, All-waiters_from P cfg (w.uid ∷ seen) ws h.1)
  ]
]

waiters_from-wants :
    (cfg : Text) (seen : List Text) (ws : List Waiter)
    → All (λ w. wants cfg w ≡ true) (waiters_from cfg seen ws)
unfolding waiters_from
waiters_from-wants cfg seen [] = tt
waiters_from-wants cfg seen (w ∷ ws) = elim (Bool-cases (wants cfg w)) [
  | inr e ↦ rw e (waiters_from-wants cfg seen ws)
  | inl e ↦ elim (Bool-cases (not (is_empty w.uid) && seen_in seen w.uid)) [
    | inl old ↦ rw (e, old) (waiters_from-wants cfg seen ws)
    | inr new ↦ rw (e, new) (e, waiters_from-wants cfg (w.uid ∷ seen) ws)
  ]
]

waiters_from-Unseen :
    (cfg : Text) (seen : List Text) (ws : List Waiter)
    → All (Unseen seen) (waiters_from cfg seen ws) × AllPairs OtherPlayer (waiters_from cfg seen ws)
unfolding waiters_from
waiters_from-Unseen cfg seen [] = (tt, tt)
waiters_from-Unseen cfg seen (w ∷ ws) = elim (Bool-cases (not (wants cfg w))) [
  | inl e ↦ rw e (waiters_from-Unseen cfg seen ws)
  | inr e ↦ elim (Bool-cases (not (is_empty w.uid) && seen_in seen w.uid)) [
    | inl old ↦ rw (e, old) (waiters_from-Unseen cfg seen ws)
    | inr new ↦
        let (unseen, apart) = waiters_from-Unseen cfg (w.uid ∷ seen) ws in
        rw (e, new)
          (
            (new, All-map (Unseen (w.uid ∷ seen)) (Unseen seen) (λ v h. ground arith) _ unseen),
            (
              All-map (Unseen (w.uid ∷ seen)) (OtherPlayer w)
                  (λ v h. ground (arith, text_eq_iff w.uid v.uid)) _ unseen,
              apart,
            ),
          )
  ]
]

pub All-waiters_for_config {κ} :
    (P : Waiter → Type κ) (cfg : Text) (ws : List Waiter)
    → All P ws
    → All P (waiters_for_config cfg ws)
unfolding waiters_for_config
All-waiters_for_config P cfg ws = All-waiters_from P cfg [] ws

pub waiters_for_config-wants :
    (cfg : Text) (ws : List Waiter) → All (λ w. wants cfg w ≡ true) (waiters_for_config cfg ws)
unfolding waiters_for_config
waiters_for_config-wants cfg ws = waiters_from-wants cfg [] ws

-- The waiters of a mode, as waitersForConfigLocked gives them, are of players who differ two by two,
-- but for those without an identity.
pub waiters_for_config-OtherPlayer :
    (cfg : Text) (ws : List Waiter) → AllPairs OtherPlayer (waiters_for_config cfg ws)
unfolding waiters_for_config
waiters_for_config-OtherPlayer cfg ws = (waiters_from-Unseen cfg [] ws).1
