-- ===== src/Matchmaking/Tickets.antt =====
-- matchmaking.go: the handlers of a matchmaking ticket, each with everything that it writes. Track is
-- split at the points where it gives up the mutex: it reads the ticket, enqueues a waiter for it when
-- the heartbeats have been sent, looks again every two seconds, and leaves.
-- The modes in which it answers without a queue (NPLN_MATCH_MODE other than "instant", and
-- NPLN_MM_REPLAY) and field 9 of the messages are left out.
pub mod Invariant
pub mod Lifecycle
pub mod Run
use splatoon.Base.{
  ℕ, zero, suc, ◌+◌, ◌≡◌, Bool, true, false, not, Option, none, some, List, [], ◌∷◌, ◌++◌, map,
  if◌then◌else◌, ltb, leb, ◌==◌, Text, codes, is_empty, text_eq, length, keep, Assoc, lookup,
  insert, erase,
}
use splatoon.Matchmaking.Modes.{
  last_seg, base_config_name, cle_du_mode, nom_lisible_du_mode, seuil_pour_config, npn_tenant,
  s3_config_echo,
}
use splatoon.Matchmaking.Types.{
  UserDefinition, TicketState, searching, placing, cancelled, Ticket, Waiter, DashNote, ping,
  quitter_salons, searching_mode, Server,
}
use splatoon.Matchmaking.Queue.{waiters_for_config, configs_en_attente, seuil_courant}
use splatoon.Matchmaking.Form.{Setting, best_latency_ms, offer, form_match}

abbrev pub regular_config : Text
regular_config = npn_tenant ++ codes "/matchmakingConfigs/regular_match_config"

-- A ticket as a request gives it.
pub record Request : Type 0 where
  pub user_definitions : List UserDefinition
  pub matchmaking_config : Text

abbrev requested_definitions : Option Request → List UserDefinition
requested_definitions none = []
requested_definitions (some r) = r.user_definitions

unfoldable pub resolved_config : Option Request → Text
unfolding s3_config_echo
resolved_config none = regular_config
resolved_config (some r) =
    if is_empty r.matchmaking_config
    then regular_config
    else s3_config_echo npn_tenant r.matchmaking_config

abbrev tenant_or_s3 : Text → Text
tenant_or_s3 tenant = if is_empty tenant then npn_tenant else tenant

-- The alias of the caller is resolved to the user whom the context names.
abbrev concrete_definitions : Text → Text → List UserDefinition → List UserDefinition
concrete_definitions uid tenant uds =
    if is_empty uid
    then uds
    else map
        (λ (ud : UserDefinition). record ud {
          user = tenant_or_s3 tenant ++ (codes "/users/" ++ uid);
        })
        uds

abbrev ping_of_first : Text → List UserDefinition → List DashNote
ping_of_first uid [] = []
ping_of_first uid (ud ∷ uds) = ping uid (best_latency_ms ud.latencies) ∷ []

unfoldable pub create_ticket : Setting → Text → Text → Option Request → Server → Ticket × Server
unfolding resolved_config last_seg cle_du_mode nom_lisible_du_mode best_latency_ms
create_ticket st uid tenant req s =
    let name = npn_tenant ++ (codes "/matchmakingTickets/" ++ st.uuid 0) in
    let uds = concrete_definitions uid tenant (requested_definitions req) in
    let cfg = resolved_config req in
    let t : Ticket = record {
      name = name;
      matchmaking_config = cfg;
      state = searching;
      user_definitions = uds;
      matched_user_sessions = [];
      game_session = none;
    } in
    (
      t,
      record s {
        tickets = insert (last_seg name) t s.tickets;
        notes =
            s.notes
            ++ (quitter_salons uid
                ∷ searching_mode uid (nom_lisible_du_mode cfg) (cle_du_mode cfg)
                ∷ ping_of_first uid uds);
      },
    )

-- The ticket that a stream follows: a copy of the stored one, or a minimal one for an unknown name.
unfoldable pub tracked_ticket : Text → Server → Ticket
unfolding last_seg
tracked_ticket name s = elim (lookup (last_seg name) s.tickets) [
  | some t ↦ record t { state = placing }
  | none ↦ record {
    name = name;
    matchmaking_config = regular_config;
    state = placing;
    user_definitions = [];
    matched_user_sessions = [];
    game_session = none;
  }
]

-- The second part: the ticket is the one that was read some seconds before.
unfoldable pub track_ticket : Setting → Text → Ticket → Server → Server
unfolding base_config_name waiters_for_config seuil_pour_config form_match
track_ticket st uid t s =
    let w : Waiter = record {
      id = s.next_id;
      ticket = some t;
      uid = uid;
      out = none;
      depuis = st.now;
    } in
    let cfg = base_config_name t.matchmaking_config in
    let s' = record s { waiting = s.waiting ++ w ∷ []; next_id = suc s.next_id } in
    let formed = form_match st cfg s' in
    if leb (seuil_pour_config cfg st.match_size) (length (waiters_for_config cfg s'.waiting))
    then formed
    else s'

-- One turn of the loop over the modes that wait.
unfoldable pub revise_config : Setting → Text → Server → Server
unfolding waiters_for_config seuil_pour_config seuil_courant form_match
revise_config st cfg s =
    let n = length (waiters_for_config cfg s.waiting) in
    let nominal = seuil_pour_config cfg st.match_size in
    let formed = form_match st cfg s in
    if leb (seuil_courant st.now cfg nominal s.waiting).0 n then formed else s

unfoldable pub revise_from : (ℕ → Setting) → ℕ → List Text → Server → Server
unfolding revise_config
revise_from st i [] s = s
revise_from st i (cfg ∷ cfgs) s = revise_from st (suc i) cfgs (revise_config (st i) cfg s)

-- Each turn of the loop draws identifiers of its own.
unfoldable pub revise : (ℕ → Setting) → Server → Server
unfolding revise_from configs_en_attente
revise st s = revise_from st 0 (configs_en_attente s.waiting) s

-- The stream of a waiter is done: the waiter leaves the queue if it is there.
unfoldable pub remove_first : ℕ → List Waiter → List Waiter
remove_first id [] = []
remove_first id (w ∷ ws) = if w.id == id then ws else w ∷ remove_first id ws

unfoldable pub leave : ℕ → Server → Server
unfolding remove_first
leave id s = record s { waiting = remove_first id s.waiting }

unfoldable pub holds_ticket : Text → Waiter → Bool
unfolding last_seg
holds_ticket id w = elim w.ticket [ none ↦ text_eq [] id | some t ↦ text_eq (last_seg t.name) id ]

abbrev pub cancelled_waiter : Waiter → Waiter
cancelled_waiter w = elim w.ticket [
  | none ↦ w
  | some t ↦ record w { out = offer w.out (record t { state = cancelled }) }
]

unfoldable pub cancel_ticket : Text → Text → Server → Server
unfolding last_seg holds_ticket
cancel_ticket uid name s =
    let id = last_seg name in
    record s {
      tickets = erase id s.tickets;
      waiting = keep (λ w. not (holds_ticket id w)) s.waiting;
      answered = s.answered ++ map cancelled_waiter (keep (holds_ticket id) s.waiting);
      notes = if is_empty uid then s.notes else s.notes ++ quitter_salons uid ∷ [];
    }
