-- ===== src/Matchmaking/Tickets/Invariant/Seating.antt =====
-- matchmaking.go, formMatchLocked: the invariant of the queue through the formation of a match.
use splatoon.Base.{
  ℕ, ◌<◌, ◌≡◌, ◌≢◌, sym, subst, false, not, none, List, [], ◌∷◌, ◌==◌, Text, All, AllPairs,
  All-append, All-keep, All-map, All-swap, AllPairs-keep, keep, keep-passes, not-any, arith,
}
use mathlib.Core.Path.{subst₂}
use splatoon.Matchmaking.Types.{GameSession, Waiter, Server}
use splatoon.Matchmaking.Teams.{Slots}
use splatoon.Matchmaking.Form.{Setting, new_session, requested_config, is_served, seat, form_match}
use splatoon.Matchmaking.Form.Roster.{IsNamed}
use splatoon.Matchmaking.Form.Seat.{
  IsWaiting, HasMatch, hand_all-HasMatch, hand_all-by_id, handed, seat-waiting, seat-answered,
  seat-next_id, seat-tickets, seat-OnePerUser,
}
use splatoon.Matchmaking.Form.Cases.{form_match_cases}
use splatoon.Matchmaking.Tickets.Invariant.{Inv, Apart, SameObject-Apart}

HasMatch-sent : (session : GameSession) (w : Waiter) → HasMatch session w → w.out ≢ none
HasMatch-sent session w h e = cc (h.sent, e)

-- Nobody who stays in the queue has the identity of a player who is served.
left_apart :
    (players ws : List Waiter)
    → All
        (λ p. All (λ w. (p.id == w.id) ≡ false) (keep (λ w. not (is_served players w)) ws))
        players
unfolding is_served
left_apart players ws =
    All-swap (λ w p. (p.id == w.id) ≡ false) (keep (λ w. not (is_served players w)) ws) players
      (All-map _ (λ w. All (λ p. (p.id == w.id) ≡ false) players)
        (λ w h.
          All-map (λ p. (w.id == p.id) ≡ false) _ (λ p q. ground arith) players
            (not-any (λ p. w.id == p.id) players (ground arith)))
        (keep (λ w. not (is_served players w)) ws)
        (keep-passes (λ w. not (is_served players w)) ws))

seat-Inv :
    (st : Setting) (cfg : Text) (players : List Waiter) (creneau : Slots) (s : Server)
    → ((Q : Waiter → Type 0) → All Q s.waiting → All Q players)
    → Inv s
    → Inv (seat st cfg players creneau s)
seat-Inv st cfg [] creneau s among v = unfold seat in v
seat-Inv st cfg (p ∷ ps) creneau s among v =
    let players = p ∷ ps in
    let given = handed st creneau players in
    let left = λ (w : Waiter). not (is_served players w) in
    let left_ : List Waiter = keep left s.waiting in
    let w' = sym (seat-waiting st cfg p ps creneau s) in
    let a' = sym (seat-answered st cfg p ps creneau s) in
    let n' = sym (seat-next_id st cfg p ps creneau s) in
    let session = new_session st players in
    let by_id = λ (P : ℕ → Type 0).
      hand_all-by_id st session (requested_config players) creneau P 0 players in
    record {
      fresh =
          subst₂ (λ n l. All (λ w. w.id < n) l) n' w'
            (All-keep (λ w. w.id < s.next_id) left s.waiting v.fresh);
      fresh_answered =
          subst₂ (λ n l. All (λ w. w.id < n) l) n' a'
            (All-append (λ w. w.id < s.next_id) s.answered given v.fresh_answered
              (by_id (λ k. k < s.next_id) (among (λ w. w.id < s.next_id) v.fresh)));
      apart = subst (AllPairs Apart) w' (AllPairs-keep Apart left s.waiting v.apart);
      waits = subst (All IsWaiting) w' (All-keep IsWaiting left s.waiting v.waits);
      named = subst (All IsNamed) w' (All-keep IsNamed left s.waiting v.named);
      gone =
          subst₂ (λ l m. All (λ u. All (Apart u) l) m) w' a'
            (All-append (λ u. All (Apart u) left_) s.answered given
              (All-map _ _ (λ u h. All-keep (Apart u) left s.waiting h) s.answered v.gone)
              (by_id (λ n. All (λ w. (n == w.id) ≡ false) left_) (left_apart players s.waiting)));
      sent = subst (All (λ w. w.out ≢ none)) a' (
          All-append (λ w. w.out ≢ none) s.answered given v.sent
            (All-map (HasMatch session) _ (HasMatch-sent session) given (
              hand_all-HasMatch st session (requested_config players) creneau 0 players
                (among IsWaiting v.waits))));
      stored = λ k t e. v.stored k t (rw (seat-tickets st cfg p ps creneau s) at e);
      roster = seat-OnePerUser st cfg p ps creneau s v.roster;
    }

-- Whatever the formation does, it keeps the invariant.
pub form_match-Inv : (st : Setting) (cfg : Text) (s : Server) → Inv s → Inv (form_match st cfg s)
form_match-Inv st cfg s v =
    form_match_cases Inv st cfg s (SameObject-Apart s.waiting v.apart) v
      (λ players creneau among. seat-Inv st cfg players creneau s among v)
