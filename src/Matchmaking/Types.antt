-- ===== src/Matchmaking/Types.antt =====
-- The messages of the matchmaking services, with the fields that the server reads or writes.
use splatoon.Base.{ℕ, Bool, Option, List, [], Text, Assoc, ℤ, pos}

-- A protobuf Value: the server reads strings and integers of a ticket's attributes.
pub data Value : Type 0 where
  string_value : Text → Value
  integer_value : ℤ → Value
  other_value : Value

-- GetStringValue and GetIntegerValue give the zero value where the other kind stands.
abbrev pub get_string_value : Value → Text
get_string_value (string_value s) = s
get_string_value _ = []

abbrev pub get_integer_value : Value → ℤ
get_integer_value (integer_value n) = n
get_integer_value _ = pos 0

-- The latencies of LatencyData, by region: a Duration whose seconds and nanoseconds have one sign, in
-- its whole milliseconds.
abbrev pub Latencies : Type 0
Latencies = Assoc ℤ

pub record UserDefinition : Type 0 where
  pub user : Text
  pub attributes : Assoc Value
  pub latencies : Latencies
  pub team : Text

pub data SessionState : Type 0 where
  pending active : SessionState

pub record GameSession : Type 0 where
  pub name : Text
  pub max_participant_count : ℕ
  pub current_participant_count : ℕ
  pub can_participate : Bool
  pub is_public : Bool
  pub state : SessionState
  pub host : Text
  pub port : ℕ
  pub properties : Assoc Value

-- What a match token certifies, before it is signed.
pub record MatchToken : Type 0 where
  pub uid : Text
  pub tenant : Text
  pub gs_name : Text
  pub user_session : Text
  pub team : Text
  pub attributes : Assoc Value
  pub latencies : Latencies
  pub config : Text
  pub host : Text
  pub port : ℕ

pub record MatchedUserSession : Type 0 where
  pub user_definition : UserDefinition
  pub user_session : Text
  pub matchmaking_id_token : MatchToken

pub data TicketState : Type 0 where
  unspecified searching placing succeeded cancelled : TicketState

pub record Ticket : Type 0 where
  pub name : Text
  pub matchmaking_config : Text
  pub state : TicketState
  pub user_definitions : List UserDefinition
  pub matched_user_sessions : List MatchedUserSession
  pub game_session : Option GameSession

-- mmWaiter. `id` is the identity of the object, which Go's pointers compare and which keys
-- `creneauDeFete` and `served`. `out` is the channel of capacity 1: what has been put in and not
-- yet been received. The ticket is a pointer in Go, and may be nil there.
pub record Waiter : Type 0 where
  pub id : ℕ
  pub ticket : Option Ticket
  pub uid : Text
  pub out : Option Ticket
  pub depuis : ℕ

-- A user session, as the register of a game session lists it.
pub record UserSession : Type 0 where
  pub name : Text
  pub user : Text
  pub attributes : Assoc Value

-- reglagesSalon and attrsParticipant: what the gamesync service reads back.
pub record RoomSettings : Type 0 where
  pub password : Text
  pub is_public : Bool
  pub config : Text
  pub props : Assoc Value

pub record ParticipantAttrs : Type 0 where
  pub att : Assoc Value
  pub ltc : Latencies
  pub tn : Text

-- The calls of the monitoring page's functions, which nothing here reads back.
pub data DashNote : Type 0 where
  room_mode : Text → Text → Text → ℕ → ℕ → Text → List Text → DashNote
  ping : Text → ℕ → DashNote
  quitter_salons : Text → DashNote
  searching_mode : Text → Text → Text → DashNote

-- matchmakerServer with the registers that its handlers write. `answered` holds the waiters that
-- have left the queue and that only their Track stream still refers to. `next_id` is the identity of
-- the next waiter that is allocated.
pub record Server : Type 0 where
  pub tickets : Assoc Ticket
  pub next_id : ℕ
  pub waiting : List Waiter
  pub answered : List Waiter
  pub participants : Assoc (List UserSession)
  pub room_settings : Assoc RoomSettings
  pub participant_attrs : Assoc ParticipantAttrs
  pub notes : List DashNote
