-- ===== src/Matchmaking/Queue.antt =====
-- matchmaking.go, matchmaking_seuil_attente.go: who waits, seen without the duplicates of a player.
pub mod Distinct
use splatoon.Base.{
  ℕ, suc, ◌+◌, ◌-◌, ◌≤◌, ◌≡◌, refl, Bool, true, false, not, ◌&&◌, Option, none, some, List, [], ◌∷◌,
  if◌then◌else◌, ltb, ◌==◌, Text, is_empty, text_eq, length, any, arith,
}
use splatoon.Matchmaking.Modes.{base_config_name}
use splatoon.Matchmaking.Types.{Ticket, Waiter}

-- `seen[k]` for the set of the keys met so far.
abbrev pub seen_in : List Text → Text → Bool
seen_in seen k = any (λ s. text_eq s k) seen

unfoldable pub distinct_from : List Text → List Waiter → List Waiter
distinct_from seen [] = []
distinct_from seen (w ∷ ws) =
    let skipped = distinct_from seen ws in
    let kept = w ∷ distinct_from (w.uid ∷ seen) ws in
    if not (is_empty w.uid) && seen_in seen w.uid then skipped else kept

unfoldable pub distinct_waiters : List Waiter → List Waiter
unfolding distinct_from
distinct_waiters waiting = distinct_from [] waiting

-- w.ticket != nil, and its configuration is the one sought
unfoldable pub wants : Text → Waiter → Bool
wants cfg w = elim w.ticket [
  | none ↦ false
  | some t ↦ text_eq (base_config_name t.matchmaking_config) cfg
]

unfoldable pub waiters_from : Text → List Text → List Waiter → List Waiter
unfolding wants
waiters_from cfg seen [] = []
waiters_from cfg seen (w ∷ ws) =
    let skipped = waiters_from cfg seen ws in
    let kept = w ∷ waiters_from cfg (w.uid ∷ seen) ws in
    if not (wants cfg w)
    then skipped
    else if not (is_empty w.uid) && seen_in seen w.uid
    then skipped
    else kept

unfoldable pub waiters_for_config : Text → List Waiter → List Waiter
unfolding waiters_from
waiters_for_config cfg waiting = waiters_from cfg [] waiting

unfoldable pub configs_from : List Text → List Waiter → List Text
configs_from seen [] = []
configs_from seen (w ∷ ws) = elim w.ticket [
  | none ↦ configs_from seen ws
  | some t ↦
      let cfg = base_config_name t.matchmaking_config in
      elim (seen_in seen cfg) [
        | true ↦ configs_from seen ws
        | false ↦ cfg ∷ configs_from (cfg ∷ seen) ws
      ]
]

unfoldable pub configs_en_attente : List Waiter → List Text
unfolding configs_from
configs_en_attente waiting = configs_from [] waiting

-- The longest wait, for the log. A zero `depuis` is the zero time.
unfoldable pub attente_from : ℕ → ℕ → List Waiter → ℕ
attente_from maintenant pire [] = pire
attente_from maintenant pire (w ∷ ws) =
    attente_from maintenant
      (if w.depuis == 0
        then pire
        else if ltb pire (maintenant - w.depuis)
        then maintenant - w.depuis
        else pire)
      ws

unfoldable pub attente_la_plus_longue : ℕ → Text → List Waiter → ℕ
unfolding attente_from
attente_la_plus_longue maintenant cfg waiting =
    attente_from maintenant 0 (waiters_for_config cfg waiting)

unfoldable pub seuil_courant : ℕ → Text → ℕ → List Waiter → ℕ × ℕ
seuil_courant maintenant cfg nominal waiting =
    (nominal, attente_la_plus_longue maintenant cfg waiting)
