-- ===== src/Matchmaking.antt =====
-- matchmaking.go, fest_equipes.go, matchmaking_seuil_attente.go: the queue of players, the formation of
-- a match, the tickets, and the register of the players of each game session.
pub mod Modes
pub mod Types
pub mod Participants
pub mod Queue
pub mod Teams
pub mod Form
pub mod Tickets
pub mod Examples
pub mod FestExamples
