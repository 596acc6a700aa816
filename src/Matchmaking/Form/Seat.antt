-- ===== src/Matchmaking/Form/Seat.antt =====
-- matchmaking.go, formMatchLocked: what the loop over the chosen players writes, and what it leaves.
use splatoon.Base.{
  ℕ, suc, ◌≡◌, refl, sym, ap, ◌∙◌, false, not, inl, inr, none, some, List, [], ◌∷◌, ◌++◌, map, Text,
  codes, is_empty, keep, All, Option-cases, arith,
}
use mathlib.Core.List.{append-nil, append_assoc}
use splatoon.Matchmaking.Types.{GameSession, MatchedUserSession, succeeded, Ticket, Waiter, Server}
use splatoon.Matchmaking.Participants.{OnePerUser, noter_participant-OnePerUser}
use splatoon.Matchmaking.Teams.{Slots}
use splatoon.Matchmaking.Form.{
  Setting, offer, matched_ticket, serve_ticket, serve_one, serve_all, new_session, requested_config,
  is_served, seat,
}

-- A waiter in the queue: it has a ticket, and nothing has been sent to it.
abbrev pub IsWaiting : Waiter → Type 0
IsWaiting w = ((t : Ticket) × (w.ticket ≡ some t)) × (w.out ≡ none)

-- What a player has once the loop has passed: his ticket of the match is in his channel, it names
-- this session, and its one entry is his own, certified for the same user session.
pub record HasMatch (session : GameSession) (w : Waiter) : Type 0 where
  pub ticket : Ticket
  pub entry : MatchedUserSession
  pub sent : w.out ≡ some ticket
  pub done : ticket.state ≡ succeeded
  pub one_session : ticket.game_session ≡ some session
  pub one_entry : ticket.matched_user_sessions ≡ entry ∷ []
  pub same_user_session : entry.matchmaking_id_token.user_session ≡ entry.user_session
  pub same_session : entry.matchmaking_id_token.gs_name ≡ session.name
  pub own : is_empty w.uid ≡ false → entry.matchmaking_id_token.uid ≡ w.uid

-- The token of a player to whom a slot is given is for the team of that slot.
pub record HasTeam (creneau : Slots) (w : Waiter) : Type 0 where
  pub ticket : Ticket
  pub entry : MatchedUserSession
  pub sent : w.out ≡ some ticket
  pub one_entry : ticket.matched_user_sessions ≡ entry ∷ []
  pub team : is_empty (creneau w.id) ≡ false → entry.matchmaking_id_token.team ≡ creneau w.id

module _ (st : Setting) (session : GameSession) (cfg : Text) (creneau : Slots) where
  hand_ticket : ℕ → Waiter → Ticket → Waiter
  hand_ticket i w t =
      let t' =
        matched_ticket st session cfg creneau
          (session.name ++ (codes "/userSessions/" ++ st.uuid (suc i))) w t in
      record w { ticket = some t'; out = offer w.out t' }

  -- The players as the loop hands them their tickets.
  pub hand_all : ℕ → List Waiter → List Waiter
  unfolding hand_ticket
  hand_all i [] = []
  hand_all i (w ∷ ws) =
      let rest = hand_all (suc i) ws in
      elim w.ticket [ none ↦ rest | some t ↦ hand_ticket i w t ∷ rest ]

  pub serve_all-answered :
      (i : ℕ) (ws : List Waiter) (s : Server)
      → (serve_all st session cfg creneau i ws s).answered ≡ s.answered ++ hand_all i ws
  unfolding serve_all serve_one serve_ticket hand_all
  serve_all-answered i [] s = sym (append-nil s.answered)
  serve_all-answered i (w ∷ ws) s = elim (Option-cases w.ticket) [
    | inl e ↦ ground (arith, serve_all-answered (suc i) ws s)
    | inr (t, e) ↦ ground (
      arith,
      serve_all-answered (suc i) ws (serve_ticket st session cfg creneau i w t s),
      append_assoc s.answered (hand_ticket i w t ∷ []) (hand_all (suc i) ws),
    )
  ]

  pub serve_all-next_id :
      (i : ℕ) (ws : List Waiter) (s : Server)
      → (serve_all st session cfg creneau i ws s).next_id ≡ s.next_id
  unfolding serve_all serve_one serve_ticket
  serve_all-next_id i [] s = refl
  serve_all-next_id i (w ∷ ws) s =
      serve_all-next_id (suc i) ws (serve_one st session cfg creneau i w s) ∙ ground arith

  pub serve_all-tickets :
      (i : ℕ) (ws : List Waiter) (s : Server)
      → (serve_all st session cfg creneau i ws s).tickets ≡ s.tickets
  unfolding serve_all serve_one serve_ticket
  serve_all-tickets i [] s = refl
  serve_all-tickets i (w ∷ ws) s =
      serve_all-tickets (suc i) ws (serve_one st session cfg creneau i w s) ∙ ground arith

  serve_one-OnePerUser :
      (i : ℕ) (w : Waiter) (s : Server)
      → OnePerUser s.participants
      → OnePerUser (serve_one st session cfg creneau i w s).participants
  unfolding serve_one serve_ticket
  serve_one-OnePerUser i w s h = elim (Option-cases w.ticket) [
    | inl e ↦ rw (e, serve_one) h
    | inr (t, e) ↦ rw (e, serve_one) (noter_participant-OnePerUser _ _ s.participants h)
  ]

  pub serve_all-OnePerUser :
      (i : ℕ) (ws : List Waiter) (s : Server)
      → OnePerUser s.participants
      → OnePerUser (serve_all st session cfg creneau i ws s).participants
  unfolding serve_all
  serve_all-OnePerUser i [] s h = h
  serve_all-OnePerUser i (w ∷ ws) s h =
      serve_all-OnePerUser (suc i) ws _ (serve_one-OnePerUser i w s h)

  hand_ticket-HasMatch :
      (i : ℕ) (w : Waiter) (t : Ticket) → w.out ≡ none → HasMatch session (hand_ticket i w t)
  unfolding hand_ticket matched_ticket
  hand_ticket-HasMatch i w t e = record {
    ticket =
        matched_ticket st session cfg creneau
          (session.name ++ (codes "/userSessions/" ++ st.uuid (suc i))) w t;
    entry = _;
    sent = ground arith;
    done = refl;
    one_session = refl;
    one_entry = refl;
    same_user_session = refl;
    same_session = refl;
    own = λ n. ground arith;
  }

  -- Everybody who waited and is served has the match.
  pub hand_all-HasMatch :
      (i : ℕ) (ws : List Waiter) → All IsWaiting ws → All (HasMatch session) (hand_all i ws)
  unfolding hand_all
  hand_all-HasMatch i [] h = tt
  hand_all-HasMatch i (w ∷ ws) h = elim (Option-cases w.ticket) [
    | inl e ↦ rw (e, hand_all) (hand_all-HasMatch (suc i) ws h.1)
    | inr (t, e) ↦
        rw (e, hand_all) (hand_ticket-HasMatch i w t h.0.1, hand_all-HasMatch (suc i) ws h.1)
  ]

  hand_ticket-HasTeam :
      (i : ℕ) (w : Waiter) (t : Ticket) → w.out ≡ none → HasTeam creneau (hand_ticket i w t)
  unfolding hand_ticket matched_ticket
  hand_ticket-HasTeam i w t e = record {
    ticket =
        matched_ticket st session cfg creneau
          (session.name ++ (codes "/userSessions/" ++ st.uuid (suc i))) w t;
    entry = _;
    sent = ground arith;
    one_entry = refl;
    team = λ n. rw n refl;
  }

  -- Everybody who waited and has a slot is certified for its team.
  pub hand_all-HasTeam :
      (i : ℕ) (ws : List Waiter) → All IsWaiting ws → All (HasTeam creneau) (hand_all i ws)
  unfolding hand_all
  hand_all-HasTeam i [] h = tt
  hand_all-HasTeam i (w ∷ ws) h = elim (Option-cases w.ticket) [
    | inl e ↦ rw (e, hand_all) (hand_all-HasTeam (suc i) ws h.1)
    | inr (t, e) ↦
        rw (e, hand_all) (hand_ticket-HasTeam i w t h.0.1, hand_all-HasTeam (suc i) ws h.1)
  ]

  -- They are the same players, in the same order.
  pub hand_all-ids :
      (i : ℕ) (ws : List Waiter)
      → All IsWaiting ws
      → map (λ w. w.id) (hand_all i ws) ≡ map (λ w. w.id) ws
  unfolding hand_all hand_ticket
  hand_all-ids i [] h = refl
  hand_all-ids i (w ∷ ws) h =
      rw (h.0.0.1, hand_all) (ap (λ l. w.id ∷ l) (hand_all-ids (suc i) ws h.1))

  -- Handing the tickets keeps what is said of identities.
  pub hand_all-by_id :
      (P : ℕ → Type 0) (i : ℕ) (ws : List Waiter)
      → All (λ w. P w.id) ws
      → All (λ w. P w.id) (hand_all i ws)
  unfolding hand_all hand_ticket
  hand_all-by_id P i [] h = tt
  hand_all-by_id P i (w ∷ ws) h = elim (Option-cases w.ticket) [
    | inl e ↦ rw (e, hand_all) (hand_all-by_id P (suc i) ws h.1)
    | inr (t, e) ↦ rw (e, hand_all) (h.0, hand_all-by_id P (suc i) ws h.1)
  ]

-- The players whom a seating answers, with their tickets.
abbrev pub handed : Setting → Slots → List Waiter → List Waiter
handed st creneau players =
    hand_all st (new_session st players) (requested_config players) creneau 0 players

module _ (st : Setting) (cfg : Text) (p : Waiter) (ps : List Waiter) (creneau : Slots)
    (s : Server) where
  pub seat-waiting :
      (seat st cfg (p ∷ ps) creneau s).waiting ≡ keep (λ w. not (is_served (p ∷ ps) w)) s.waiting
  unfolding seat
  seat-waiting = refl

  pub seat-answered :
      (seat st cfg (p ∷ ps) creneau s).answered ≡ s.answered ++ handed st creneau (p ∷ ps)
  unfolding seat
  seat-answered =
      serve_all-answered st (new_session st (p ∷ ps)) (requested_config (p ∷ ps)) creneau 0 (p ∷ ps)
        _

  pub seat-next_id : (seat st cfg (p ∷ ps) creneau s).next_id ≡ s.next_id
  unfolding seat
  seat-next_id =
      serve_all-next_id st (new_session st (p ∷ ps)) (requested_config (p ∷ ps)) creneau 0 (p ∷ ps)
        _

  pub seat-tickets : (seat st cfg (p ∷ ps) creneau s).tickets ≡ s.tickets
  unfolding seat
  seat-tickets =
      serve_all-tickets st (new_session st (p ∷ ps)) (requested_config (p ∷ ps)) creneau 0 (p ∷ ps)
        _

  pub seat-OnePerUser :
      OnePerUser s.participants → OnePerUser (seat st cfg (p ∷ ps) creneau s).participants
  unfolding seat
  seat-OnePerUser h =
      serve_all-OnePerUser st (new_session st (p ∷ ps)) (requested_config (p ∷ ps)) creneau 0
        (p ∷ ps) _ h
