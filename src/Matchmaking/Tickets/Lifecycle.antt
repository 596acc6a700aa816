-- ===== src/Matchmaking/Tickets/Lifecycle.antt =====
-- matchmaking.go: a ticket from its creation to its cancellation.
use splatoon.Base.{
  ◌≡◌, refl, true, false, not, Option, none, some, List, ◌∷◌, ◌++◌, codes, map, keep, Text, text_eq,
  text_eq_refl, lookup, lookup-insert, lookup-erase, All, All-keep, All-map, All-zip, keep-passes,
  Perm, keep-perm, arith,
}
use splatoon.Matchmaking.Modes.{last_seg, npn_tenant}
use splatoon.Matchmaking.Modes.Paths.{IsSegment, last_seg-append}
use splatoon.Matchmaking.Types.{Ticket, Waiter, Server, placing, cancelled}
use splatoon.Matchmaking.Form.{Setting}
use splatoon.Matchmaking.Form.Seat.{IsWaiting}
use splatoon.Matchmaking.Tickets.{
  Request, create_ticket, tracked_ticket, holds_ticket, cancelled_waiter, cancel_ticket,
}

tracked_found :
    (name : Text) (s : Server) (t : Ticket)
    → lookup (last_seg name) s.tickets ≡ some t
    → tracked_ticket name s ≡ record t { state = placing }
unfolding tracked_ticket
tracked_found name s t e = rw (e, tracked_ticket)

-- Where the identifier drawn for a ticket has no slash, a stream that tracks any path which ends in
-- a slash and that identifier, as right after the creation, follows the ticket created, in the state
-- PLACING, whatever the request and the tickets stored before.
pub tracked_ticket-create_ticket :
    (st : Setting) (uid tenant : Text) (req : Option Request) (s : Server) (alias : Text)
    → IsSegment (st.uuid 0)
    → (let c = create_ticket st uid tenant req s in
        tracked_ticket (alias ++ b'/' ∷ st.uuid 0) c.1 ≡ record c.0 { state = placing })
unfolding create_ticket
tracked_ticket-create_ticket st uid tenant req s alias seg =
    let c = create_ticket st uid tenant req s in
    let id = st.uuid 0 in
    let named : last_seg (c.0).name ≡ id =
      last_seg-append (npn_tenant ++ codes "/matchmakingTickets") id seg in
    let k = last_seg (c.0).name in
    tracked_found (alias ++ b'/' ∷ id) c.1 c.0 (
      rw (last_seg-append alias id seg)
        (rw⁻¹ named (ground (arith, lookup-insert k k c.0 s.tickets, text_eq_refl k))))

-- What the stream of a waiter has to send: the cancelled copy of its ticket.
pub record IsWithdrawn (id : Text) (w : Waiter) : Type 0 where
  pub ticket : Ticket
  pub of_ticket : text_eq (last_seg ticket.name) id ≡ true
  pub sent : w.out ≡ some (record ticket { state = cancelled })

pub record Withdrawn (name : Text) (s s' : Server) : Type 0 where
  pub removed : List Waiter
  pub forgotten : lookup (last_seg name) s'.tickets ≡ none
  pub nobody : All (λ w. holds_ticket (last_seg name) w ≡ false) s'.waiting
  pub accounted : Perm (removed ++ s'.waiting) s.waiting
  pub answered : s'.answered ≡ s.answered ++ map cancelled_waiter removed
  pub told : All (λ w. IsWithdrawn (last_seg name) (cancelled_waiter w)) removed

IsWithdrawn-waiter :
    (id : Text) (w : Waiter)
    → IsWaiting w
    → holds_ticket id w ≡ true
    → IsWithdrawn id (cancelled_waiter w)
unfolding holds_ticket
IsWithdrawn-waiter id w ((t, e), o) h = record {
  ticket = t;
  of_ticket = rw (e, holds_ticket) at h;
  sent = rw (e, o);
}

-- Where the waiters of the queue have a ticket and have been sent nothing, cancelling a ticket
-- forgets it, takes every waiter that holds it out of the queue and no other, and sends each of
-- these the cancelled copy of its ticket.
pub cancel_ticket-Withdrawn :
    (uid name : Text) (s : Server)
    → All IsWaiting s.waiting
    → Withdrawn name s (cancel_ticket uid name s)
unfolding cancel_ticket
cancel_ticket-Withdrawn uid name s waits =
    let held = holds_ticket (last_seg name) in
    record {
      removed = keep held s.waiting;
      forgotten =
          rw (lookup-erase (last_seg name) (last_seg name) s.tickets, text_eq_refl (last_seg name));
      nobody =
          All-map _ (λ w. held w ≡ false) (λ w h. ground arith) _
            (keep-passes (λ w. not (held w)) s.waiting);
      accounted = keep-perm held s.waiting;
      answered = refl;
      told =
          All-map _ (λ w. IsWithdrawn (last_seg name) (cancelled_waiter w))
            (λ w h. IsWithdrawn-waiter (last_seg name) w h.0 h.1) (keep held s.waiting)
            (All-zip IsWaiting _ (keep held s.waiting) (All-keep IsWaiting held s.waiting waits)
              (keep-passes held s.waiting));
    }
