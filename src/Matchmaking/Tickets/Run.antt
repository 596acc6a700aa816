-- ===== src/Matchmaking/Tickets/Run.antt =====
-- matchmaking.go: the server as its requests move it. Each step is what one handler does under the
-- mutex, so that concurrent requests are a sequence of these steps in some order; a stream that
-- tracks a ticket has a step that reads it and, after its heartbeats, one that enqueues.
use splatoon.Base.{ℕ, Option, List, [], ◌∷◌, ◌++◌, Text, lookup, All, All-append}
use splatoon.Matchmaking.Types.{Ticket, Server}
use splatoon.Matchmaking.Form.{Setting}
use splatoon.Matchmaking.Tickets.{
  Request, create_ticket, tracked_ticket, track_ticket, revise, leave, cancel_ticket,
}
use splatoon.Matchmaking.Tickets.Invariant.{Inv, NamedTicket}
use splatoon.Matchmaking.Tickets.Invariant.Requests.{
  create_ticket-Inv, tracked_named, track_ticket-Inv, revise-Inv, leave-Inv, cancel_ticket-Inv,
}

-- newMatchmakerServer
abbrev pub new_server : Server
new_server = record {
  tickets = [];
  next_id = 0;
  waiting = [];
  answered = [];
  participants = [];
  room_settings = [];
  participant_attrs = [];
  notes = [];
}

-- The server, and the streams of TrackMatchmakingTicket that have read their ticket and are still
-- sending heartbeats: the caller of each, and the ticket that it read.
pub record World : Type 0 where
  pub server : Server
  pub suivis : List (Text × Ticket)

-- One part of a request that holds the mutex. Any of the streams may be the next to enqueue, or may
-- end before it does.
pub data Step : World → World → Type 0 where
  created :
      (st : Setting) (uid tenant : Text) (req : Option Request) {e : World}
      → Step e (record e { server = (create_ticket st uid tenant req e.server).1 })
  read :
      (uid name : Text) {e : World}
      → Step e (record e { suivis = e.suivis ++ (uid, tracked_ticket name e.server) ∷ [] })
  tracked :
      (st : Setting) (uid : Text) (t : Ticket) (before after : List (Text × Ticket)) {s : Server}
      → Step
          (record { server = s; suivis = before ++ (uid, t) ∷ after })
          (record { server = track_ticket st uid t s; suivis = before ++ after })
  ended :
      (q : Text × Ticket) (before after : List (Text × Ticket)) {s : Server}
      → Step
          (record { server = s; suivis = before ++ q ∷ after })
          (record { server = s; suivis = before ++ after })
  revised : (st : ℕ → Setting) {e : World} → Step e (record e { server = revise st e.server })
  left : (id : ℕ) {e : World} → Step e (record e { server = leave id e.server })
  withdrawn :
      (uid name : Text) {e : World} → Step e (record e { server = cancel_ticket uid name e.server })

abbrev pub new_world : World
new_world = record { server = new_server; suivis = [] }

pub data Reachable : World → Type 0 where
  started : Reachable new_world
  then_ : {e e' : World} → Reachable e → Step e e' → Reachable e'

abbrev NamedSuivi : Text × Ticket → Type 0
NamedSuivi q = NamedTicket q.1

-- The invariant of the queue, and every stream has read a ticket for a configuration path.
record WorldInv (e : World) : Type 0 where
  queue : Inv e.server
  suivis : All NamedSuivi e.suivis

All-middle :
    (before : List (Text × Ticket)) (q : Text × Ticket) (after : List (Text × Ticket))
    → All NamedSuivi (before ++ q ∷ after)
    → NamedSuivi q × All NamedSuivi (before ++ after)
All-middle [] q after h = h
All-middle (p ∷ before) q after h =
    let (here, rest) = All-middle before q after h.1 in (here, (h.0, rest))

new_server-Inv : Inv new_server
unfolding lookup
new_server-Inv = record {
  fresh = tt;
  fresh_answered = tt;
  apart = tt;
  waits = tt;
  named = tt;
  gone = tt;
  sent = tt;
  stored = λ k t e. absurd (cc);
  roster = record { roster = λ g. tt };
}

Step-WorldInv : {e e' : World} → Step e e' → WorldInv e → WorldInv e'
Step-WorldInv {e = e} (created st uid tenant req) v = record {
  queue = create_ticket-Inv st uid tenant req e.server v.queue;
  suivis = v.suivis;
}
Step-WorldInv {e = e} (read uid name) v = record {
  queue = v.queue;
  suivis =
      All-append NamedSuivi e.suivis ((uid, tracked_ticket name e.server) ∷ []) v.suivis
        (tracked_named name e.server v.queue, tt);
}
Step-WorldInv (tracked st uid t before after {s = s}) v =
    let (named, rest) = All-middle before (uid, t) after v.suivis in
    record { queue = track_ticket-Inv st uid t s named v.queue; suivis = rest }
Step-WorldInv (ended q before after) v = record {
  queue = v.queue;
  suivis = (All-middle before q after v.suivis).1;
}
Step-WorldInv {e = e} (revised st) v = record {
  queue = revise-Inv st e.server v.queue;
  suivis = v.suivis;
}
Step-WorldInv {e = e} (left id) v = record {
  queue = leave-Inv id e.server v.queue;
  suivis = v.suivis;
}
Step-WorldInv {e = e} (withdrawn uid name) v = record {
  queue = cancel_ticket-Inv uid name e.server v.queue;
  suivis = v.suivis;
}

Reachable-WorldInv : {e : World} → Reachable e → WorldInv e
Reachable-WorldInv started = record { queue = new_server-Inv; suivis = tt }
Reachable-WorldInv (then_ r step) = Step-WorldInv step (Reachable-WorldInv r)

-- However the parts of the requests that hold the mutex follow each other, starting from an empty
-- server, the reading of a ticket by a stream that tracks it and the later enqueuing of its waiter
-- being two parts: the waiters of the queue are different objects, each has a ticket for a
-- configuration path and has been sent nothing; those who have been answered are no longer in the
-- queue and have an answer; stored tickets are for configuration paths; and a game session lists a
-- named user once.
pub Reachable-Inv : {e : World} → Reachable e → Inv e.server
Reachable-Inv r = (Reachable-WorldInv r).queue
