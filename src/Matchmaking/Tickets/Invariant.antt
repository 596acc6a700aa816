-- ===== src/Matchmaking/Tickets/Invariant.antt =====
-- matchmaking.go: the invariant of the queue.
pub mod Seating
pub mod Requests
use splatoon.Base.{
  ℕ, suc, ◌+◌, ◌≤◌, ◌<◌, ◌≡◌, ◌≢◌, refl, Bool, true, false, not, inl, inr, Option, none, some, List,
  [], ◌∷◌, ◌++◌, ◌==◌, Text, Assoc, lookup, All, AllPairs, All-map, arith,
}
use splatoon.Matchmaking.Modes.Paths.{config_path, IsSegment}
use splatoon.Matchmaking.Types.{Ticket, Waiter, Server}
use splatoon.Matchmaking.Participants.{OnePerUser}
use splatoon.Matchmaking.Teams.Groups.{SameObject}
use splatoon.Matchmaking.Form.Seat.{IsWaiting}
use splatoon.Matchmaking.Form.Roster.{IsNamed}

-- The identities of two waiters differ.
abbrev pub Apart : Waiter → Waiter → Type 0
Apart w v = (w.id == v.id) ≡ false

abbrev pub NamedTicket : Ticket → Type 0
NamedTicket t = (x : Text) × (t.matchmaking_config ≡ config_path x) × IsSegment x

-- The waiters of the queue are different objects, with a ticket for a known path, and nothing has been
-- sent to any of them; those who have been answered have left the queue and hold their answer; and
-- every game session lists a user once.
pub record Inv (s : Server) : Type 0 where
  pub fresh : All (λ w. w.id < s.next_id) s.waiting
  pub fresh_answered : All (λ w. w.id < s.next_id) s.answered
  pub apart : AllPairs Apart s.waiting
  pub waits : All IsWaiting s.waiting
  pub named : All IsNamed s.waiting
  pub gone : All (λ v. All (Apart v) s.waiting) s.answered
  pub sent : All (λ w. w.out ≢ none) s.answered
  pub stored : (k : Text) (t : Ticket) → lookup k s.tickets ≡ some t → NamedTicket t
  pub roster : OnePerUser s.participants

pub Apart-sym : (w v : Waiter) → Apart w v → Apart v w
Apart-sym w v h = ground arith

pub SameObject-Apart : (ws : List Waiter) → AllPairs Apart ws → SameObject ws
SameObject-Apart [] h = tt
SameObject-Apart (w ∷ ws) h = (
  (λ e. refl, All-map (Apart w) (λ v. w.id ≡ v.id → w ≡ v) (λ v p e. absurd (ground arith)) ws h.0),
  extend ws ws h.0 (SameObject-Apart ws h.1),
)
  where
    extend :
        (xs ys : List Waiter)
        → All (Apart w) xs
        → All (λ x. All (λ v. x.id ≡ v.id → x ≡ v) ys) xs
        → All (λ x. All (λ v. x.id ≡ v.id → x ≡ v) (w ∷ ys)) xs
    extend [] ys p q = tt
    extend (x ∷ xs) ys p q = (((λ e. absurd (ground arith)), q.0), extend xs ys p.1 q.1)
