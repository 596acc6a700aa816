-- ===== src/Matchmaking/Examples.antt =====
-- matchmaking.go and fest_equipes.go: the theorems at concrete queues.
use splatoon.Base.{
  AllPairs, if◌then◌else◌, keep, not, ℕ, ◌+◌, ◌≡◌, refl, true, false, none, some, List, [], ◌∷◌,
  ◌++◌, Text, codes, All, length, lookup, last_index_byte, text_eq, has_prefix, contains, arith,
}
use splatoon.Matchmaking.Modes.{seuil_pour_config, base_config_name}
use splatoon.Matchmaking.Modes.Paths.{config_path, IsSegment}
use splatoon.Matchmaking.Types.{string_value, placing, Ticket, Waiter, UserSession, Server}
use splatoon.Matchmaking.Queue.{waiters_for_config}
use splatoon.Matchmaking.Queue.Distinct.{OtherPlayer, waiters_for_config-OtherPlayer}
use splatoon.Matchmaking.Teams.{Env, est_file_de_fete, est_tricolore}
use splatoon.Matchmaking.Participants.{
  OnePerUser, oublier_participant, oublier_participant_lem, noter_participant, participants_de,
  entries_of, entries_but, noter_participant-OnePerUser, noter_participant_lem,
}
use splatoon.Matchmaking.Form.{Setting, form_match}
use splatoon.Matchmaking.Form.Seat.{IsWaiting}
use splatoon.Matchmaking.Form.Roster.{IsNamed, Formed, form_match-Formed}
use splatoon.Matchmaking.Tickets.{create_ticket, tracked_ticket, track_ticket, cancel_ticket}
use splatoon.Matchmaking.Tickets.Invariant.{Inv}
use splatoon.Matchmaking.Tickets.Run.{
  new_server, created, read, tracked, withdrawn, started, then_, Reachable-Inv,
}
use splatoon.Matchmaking.Tickets.Lifecycle.{
  Withdrawn, cancel_ticket-Withdrawn, tracked_ticket-create_ticket,
}

abbrev coop : Text
coop = codes "coop_normal"

abbrev pub fest : Text
fest = codes "fest_open"

abbrev pub calm : Env
calm = record {
  soir_flag = λ f. false;
  soir_flag_valeur = λ f. [];
  camp_defenseur = λ f. codes "Alpha";
}

abbrev pub setting : Setting
setting = record {
  env = calm;
  now = 1000;
  match_size = 8;
  relay_host = codes "relay";
  relay_port = 4000;
  fest_id = codes "JUEA-00107";
  uuid = λ n. n ∷ [];
}

-- A player who asks for a mode and declares a camp.
abbrev pub ticket_of : Text → Text → Ticket
ticket_of mode camp = record {
  name = codes "t";
  matchmaking_config = config_path mode;
  state = placing;
  user_definitions =
      record {
        user = codes "u";
        attributes = (codes "fest_team", string_value camp) ∷ [];
        latencies = [];
        team = [];
      }
      ∷ [];
  matched_user_sessions = [];
  game_session = none;
}

abbrev pub player : ℕ → Text → Text → Waiter
player id mode camp = record {
  id = id;
  ticket = some (ticket_of mode camp);
  uid = (65 + id) ∷ [];
  out = none;
  depuis = 10;
}

abbrev pub queued : List Waiter → Server
queued ws = record {
  tickets = [];
  next_id = 20;
  waiting = ws;
  answered = [];
  participants = [];
  room_settings = [];
  participant_attrs = [];
  notes = [];
}

-- Four players wait for Salmon Run, and one for something else.
abbrev salmon : List Waiter
salmon =
    player 0 coop []
    ∷ player 1 fest (codes "Alpha")
    ∷ player 2 coop []
    ∷ player 3 coop []
    ∷ player 4 coop []
    ∷ []

IsSegment-coop : IsSegment coop
unfolding last_index_byte
IsSegment-coop = refl

pub IsSegment-fest : IsSegment fest
unfolding last_index_byte
IsSegment-fest = refl

pub named : (id : ℕ) (mode camp : Text) → IsSegment mode → IsNamed (player id mode camp)
named id mode camp h = (ticket_of mode camp, mode, refl, refl, h)

pub waits : (id : ℕ) (mode camp : Text) → IsWaiting (player id mode camp)
waits id mode camp = ((ticket_of mode camp, refl), refl)

salmon-IsNamed : All IsNamed salmon
salmon-IsNamed = (
  named 0 coop [] IsSegment-coop,
  (
    named 1 fest (codes "Alpha") IsSegment-fest,
    (
      named 2 coop [] IsSegment-coop,
      (named 3 coop [] IsSegment-coop, (named 4 coop [] IsSegment-coop, tt)),
    ),
  ),
)

salmon-IsWaiting : All IsWaiting salmon
salmon-IsWaiting = (
  waits 0 coop [],
  (waits 1 fest (codes "Alpha"), (waits 2 coop [], (waits 3 coop [], (waits 4 coop [], tt)))),
)

four_wait : length (waiters_for_config coop salmon) ≡ 4
unfolding waiters_for_config base_config_name last_index_byte text_eq
four_wait = refl

one_waits : length (waiters_for_config fest salmon) ≡ 1
unfolding waiters_for_config base_config_name last_index_byte text_eq
one_waits = refl

coop_takes_four : seuil_pour_config coop 8 ≡ 4
unfolding seuil_pour_config contains has_prefix
coop_takes_four = refl

pub fest_takes_eight : seuil_pour_config fest 8 ≡ 8
unfolding seuil_pour_config contains has_prefix
fest_takes_eight = refl

coop_is_no_fest : est_file_de_fete coop ≡ false
unfolding est_file_de_fete last_index_byte contains has_prefix
coop_is_no_fest = refl

pub fest_is_fest : est_file_de_fete fest ≡ true
unfolding est_file_de_fete last_index_byte contains has_prefix
fest_is_fest = refl

pub fest_not_tricolore : est_tricolore calm fest ≡ false
unfolding est_tricolore last_index_byte contains has_prefix
fest_not_tricolore = refl

form_match-Formed_example :
    Formed setting coop (queued salmon) (form_match setting coop (queued salmon))
form_match-Formed_example =
    form_match-Formed setting coop (queued salmon) salmon-IsNamed salmon-IsWaiting coop_is_no_fest
      (omega (arith, coop_takes_four)) (omega (arith, coop_takes_four, four_wait))

-- The name under which the client tracks the ticket that it has just created.
abbrev alias_of_first : Text
alias_of_first = codes "tenants/current/matchmakingTickets/" ++ setting.uuid 0

no_slash : IsSegment (setting.uuid 0)
unfolding last_index_byte
no_slash = refl

create_tracked_example :
    (let c = create_ticket setting (codes "u1") [] none new_server in
      tracked_ticket alias_of_first c.1 ≡ record c.0 { state = placing })
create_tracked_example =
    tracked_ticket-create_ticket setting (codes "u1") [] none new_server
      (codes "tenants/current/matchmakingTickets") no_slash

-- A ticket that is cancelled while its stream sends heartbeats is enqueued all the same.
Reachable-Inv_example : Inv (
    track_ticket setting
      (codes "u1")
      (tracked_ticket alias_of_first (create_ticket setting (codes "u1") [] none new_server).1)
      (cancel_ticket [] alias_of_first (create_ticket setting (codes "u1") [] none new_server).1))
Reachable-Inv_example = Reachable-Inv (
    then_
      (then_
        (then_ (then_ started (created setting (codes "u1") [] none))
          (read (codes "u1") alias_of_first))
        (withdrawn [] alias_of_first))
      (tracked setting (codes "u1") (tracked_ticket alias_of_first _) [] []))

cancel_ticket-Withdrawn_example :
    Withdrawn (codes "t") (queued salmon) (cancel_ticket [] (codes "t") (queued salmon))
cancel_ticket-Withdrawn_example =
    cancel_ticket-Withdrawn [] (codes "t") (queued salmon) salmon-IsWaiting

abbrev session_of : Text → Text → UserSession
session_of name user = record { name = name; user = user; attributes = [] }

nobody : OnePerUser []
unfolding lookup
nobody = record { roster = λ g. tt }

abbrev one_game : List (Text × List UserSession)
one_game = noter_participant (codes "g") (session_of (codes "s1") (codes "u1")) []

one_game-OnePerUser : OnePerUser one_game
one_game-OnePerUser =
    noter_participant-OnePerUser (codes "g") (session_of (codes "s1") (codes "u1")) [] nobody

noter_participant_lem_example :
    (entries_of (codes "u1") (
        participants_de
          (codes "g")
          (noter_participant (codes "g") (session_of (codes "s2") (codes "u1")) one_game))
      ≡ session_of (codes "s2") (codes "u1") ∷ [])
    × (entries_but (codes "u1") (
          participants_de
            (codes "g")
            (noter_participant (codes "g") (session_of (codes "s2") (codes "u1")) one_game))
        ≡ entries_but (codes "u1") (participants_de (codes "g") one_game))
noter_participant_lem_example =
    noter_participant_lem (codes "g") (session_of (codes "s2") (codes "u1")) one_game refl refl
      one_game-OnePerUser

oublier_participant_lem_example :
    participants_de (codes "h") (oublier_participant (codes "g") (codes "u1") one_game) ≡ (
      if text_eq (codes "g") (codes "h")
      then keep (λ d. not (text_eq d.user (codes "u1"))) (participants_de (codes "g") one_game)
      else participants_de (codes "h") one_game)
oublier_participant_lem_example =
    oublier_participant_lem (codes "g") (codes "u1") (codes "h") one_game refl refl

waiters_for_config-OtherPlayer_example : AllPairs OtherPlayer (waiters_for_config coop salmon)
waiters_for_config-OtherPlayer_example = waiters_for_config-OtherPlayer coop salmon
