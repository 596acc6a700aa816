-- ===== src/Matchmaking/Form.antt =====
-- matchmaking.go, formMatchLocked: one game session for a complete group of waiting players.
pub mod Seat
pub mod Roster
pub mod Fest
pub mod Cases
use splatoon.Base.{
  ℕ, zero, suc, ◌+◌, ◌≡◌, Bool, true, false, not, ◌&&◌, ◌||◌, Option, none, some, List, [], ◌∷◌,
  ◌++◌, map, if◌then◌else◌, ltb, ◌==◌, Text, codes, is_empty, text_eq, length, take, keep, any,
  Assoc, lookup, insert, ℤ, pos, negsuc,
}
use splatoon.Matchmaking.Modes.{
  last_seg, base_config_name, cle_du_mode, nom_lisible_du_mode, s3_room_capacity, seuil_pour_config,
  npn_tenant,
}
use splatoon.Matchmaking.Types.{
  Value, string_value, Latencies, UserDefinition, GameSession, SessionState, active, MatchToken,
  MatchedUserSession, TicketState, succeeded, Ticket, Waiter, UserSession, RoomSettings,
  ParticipantAttrs, DashNote, room_mode, ping, Server,
}
use splatoon.Matchmaking.Participants.{noter_participant}
use splatoon.Matchmaking.Queue.{waiters_for_config, seuil_courant}
use splatoon.Matchmaking.Teams.{Env, Slots, no_slots, est_file_de_fete, repartir_par_camp}

-- What a call reads from outside: the flags and the fest, the clock, mmConfig, the identifier of the
-- current fest, and the identifiers that uuid4 draws, the n-th of the call being `uuid n`.
pub record Setting : Type 0 where
  pub env : Env
  pub now : ℕ
  pub match_size : ℕ
  pub relay_host : Text
  pub relay_port : ℕ
  pub fest_id : Text
  pub uuid : ℕ → Text

-- s3SessionProperties: the client's properties, with the server's own two keys on top.
unfoldable pub s3_session_properties : Text → Assoc Value → Assoc Value
unfolding last_seg
s3_session_properties cfg req = insert (codes "_AliasSuffix") (string_value []) (
    insert (codes "_BaseConfigName") (string_value (last_seg cfg)) (
      keep
        (λ e.
          not (text_eq e.0 (codes "_BaseConfigName")) && not (text_eq e.0 (codes "_AliasSuffix")))
        req))

best_latency_from : ℕ → List ℕ → ℕ
best_latency_from best [] = best
best_latency_from best (ms ∷ rest) =
    best_latency_from (if ltb 0 ms && (best == 0 || ltb ms best) then ms else best) rest

-- A latency below zero is passed over like one of zero.
abbrev above_zero : ℤ → ℕ
above_zero (pos n) = n
above_zero (negsuc n) = 0

unfoldable pub best_latency_ms : Latencies → ℕ
unfolding best_latency_from
best_latency_ms ld = best_latency_from 0 (map (λ e. above_zero e.1) ld)

-- dashNotePing ignores a player without an identity or without a latency.
ping_notes : List Waiter → List DashNote
unfolding best_latency_ms
ping_notes [] = []
ping_notes (w ∷ ws) =
    let rest = ping_notes ws in
    elim w.ticket [
      | none ↦ rest
      | some t ↦ elim t.user_definitions [
        | [] ↦ rest
        | ud ∷ uds ↦ ping w.uid (best_latency_ms ud.latencies) ∷ rest
      ]
    ]

-- The send on a channel of capacity 1 whose default branch drops the value.
abbrev pub offer {ℓ} : {A : Type ℓ} → Option A → A → Option A
offer none t = some t
offer (some u) t = some u

abbrev pub first_definition : Waiter → Ticket → UserDefinition
first_definition w t = elim t.user_definitions [
  | [] ↦ record {
    user = npn_tenant ++ (codes "/users/" ++ w.uid);
    attributes = [];
    latencies = [];
    team = [];
  }
  | ud ∷ uds ↦ ud
]

-- The slot of the fest if there is one, and otherwise the team that the client asked for.
abbrev pub team_of : Slots → Waiter → UserDefinition → Text
team_of creneau w ud = if is_empty (creneau w.id) then ud.team else creneau w.id

abbrev pub uid_of : Waiter → UserDefinition → Text
uid_of w ud = if is_empty w.uid then last_seg ud.user else w.uid

-- The ticket that a player gets: one entry, his own, with his own token.
unfoldable pub matched_ticket :
    Setting → GameSession → Text → Slots → Text → Waiter → Ticket → Ticket
unfolding base_config_name last_seg
matched_ticket st session cfg_demandee creneau user_sess w t =
    let ud = first_definition w t in
    record t {
      state = succeeded;
      matched_user_sessions =
          record {
            user_definition = ud;
            user_session = user_sess;
            matchmaking_id_token = record {
              uid = uid_of w ud;
              tenant = npn_tenant;
              gs_name = session.name;
              user_session = user_sess;
              team = team_of creneau w ud;
              attributes = ud.attributes;
              latencies = ud.latencies;
              config = base_config_name cfg_demandee;
              host = st.relay_host;
              port = st.relay_port;
            };
          }
          ∷ [];
      game_session = some session;
    }

unfoldable pub remember_participant_attrs :
    Text → Assoc Value → Latencies → Text → Assoc ParticipantAttrs → Assoc ParticipantAttrs
remember_participant_attrs uss att latences team m =
    if is_empty uss then m else insert uss (record { att = att; ltc = latences; tn = team }) m

-- The body of the loop over the players, for the player with a ticket.
serve_ticket : Setting → GameSession → Text → Slots → ℕ → Waiter → Ticket → Server → Server
unfolding matched_ticket remember_participant_attrs noter_participant last_seg
serve_ticket st session cfg_demandee creneau i w t s =
    let ud = first_definition w t in
    let user_sess = session.name ++ (codes "/userSessions/" ++ st.uuid (suc i)) in
    let t' = matched_ticket st session cfg_demandee creneau user_sess w t in
    record s {
      participant_attrs =
          remember_participant_attrs (last_seg user_sess) ud.attributes ud.latencies
            (team_of creneau w ud) s.participant_attrs;
      participants =
          noter_participant (last_seg session.name)
            (record { name = user_sess; user = ud.user; attributes = ud.attributes })
            s.participants;
      answered = s.answered ++ record w { ticket = some t'; out = offer w.out t' } ∷ [];
    }

-- The code would panic on a waiter without a ticket; the queue of a mode holds none.
serve_one : Setting → GameSession → Text → Slots → ℕ → Waiter → Server → Server
unfolding serve_ticket
serve_one st session cfg_demandee creneau i w s = elim w.ticket [
  | none ↦ s
  | some t ↦ serve_ticket st session cfg_demandee creneau i w t s
]

unfoldable pub serve_all : Setting → GameSession → Text → Slots → ℕ → List Waiter → Server → Server
unfolding serve_one
serve_all st session cfg_demandee creneau i [] s = s
serve_all st session cfg_demandee creneau i (w ∷ ws) s =
    serve_all st session cfg_demandee creneau (suc i) ws
      (serve_one st session cfg_demandee creneau i w s)

abbrev pub requested_config : List Waiter → Text
requested_config [] = []
requested_config (w ∷ ws) = elim w.ticket [ none ↦ [] | some t ↦ t.matchmaking_config ]

requested_properties : List Waiter → Assoc Value
requested_properties [] = []
requested_properties (w ∷ ws) = elim w.ticket [
  | none ↦ []
  | some t ↦ elim t.game_session [ none ↦ [] | some gs ↦ gs.properties ]
]

-- The session announces the capacity of the configuration that its first player asked for.
unfoldable pub new_session : Setting → List Waiter → GameSession
unfolding s3_room_capacity base_config_name
new_session st players = record {
  name = npn_tenant ++ (codes "/gameSessions/" ++ st.uuid 0);
  max_participant_count = s3_room_capacity (requested_config players) (length players);
  current_participant_count = s3_room_capacity (requested_config players) (length players);
  can_participate = true;
  is_public = true;
  state = active;
  host = st.relay_host;
  port = st.relay_port;
  properties =
      (codes "_BaseConfigName", string_value (base_config_name (requested_config players)))
      ∷ (codes "_AliasSuffix", string_value [])
      ∷ [];
}

unfoldable pub is_served : List Waiter → Waiter → Bool
is_served players w = any (λ p. w.id == p.id) players

abbrev pub host_uid : List Waiter → Text
host_uid [] = []
host_uid (w ∷ ws) = w.uid

-- What follows the choice of the players, once they are cut to the target.
unfoldable pub seat : Setting → Text → List Waiter → Slots → Server → Server
unfolding new_session serve_all is_served requested_properties ping_notes s3_session_properties
seat st cfg [] creneau s = s
seat st cfg (p ∷ ps) creneau s =
    let players = p ∷ ps in
    let session = new_session st players in
    let cfg_demandee = requested_config players in
    let settings : RoomSettings = record {
      password = [];
      is_public = true;
      config = base_config_name cfg_demandee;
      props = s3_session_properties cfg_demandee (requested_properties players);
    } in
    let s' =
      serve_all st session cfg_demandee creneau 0 players
        (record s { room_settings = insert (last_seg session.name) settings s.room_settings }) in
    record s' {
      waiting = keep (λ w. not (is_served players w)) s.waiting;
      notes =
          s.notes
          ++ (room_mode session.name (nom_lisible_du_mode cfg) (cle_du_mode cfg) (length players)
                (length players) (host_uid players) (map (λ w. w.uid) players)
              ∷ ping_notes players);
    }

unfoldable pub seat_camps : Setting → Text → ℕ → Option (List Waiter × Slots) → Server → Server
unfolding seat
seat_camps st cfg seuil none s = s
seat_camps st cfg seuil (some (choisis, creneau)) s = seat st cfg (take seuil choisis) creneau s

unfoldable pub form_match : Setting → Text → Server → Server
unfolding waiters_for_config seuil_pour_config seuil_courant est_file_de_fete repartir_par_camp
    seat_camps
form_match st cfg s =
    let players = waiters_for_config cfg s.waiting in
    let seuil = seuil_pour_config cfg st.match_size in
    if ltb (length players) seuil
    then s
    else if est_file_de_fete cfg
    then seat_camps st cfg seuil
        (repartir_par_camp st.env players seuil (seuil_courant st.now cfg seuil s.waiting).0 cfg
          st.fest_id)
        s
    else seat st cfg (take seuil players) no_slots s
