-- ===== src/Lib.antt =====
-- A model of the NPLN server for Splatoon 3: its matchmaking, the rotation of its stages, its bans,
-- its Splatfests and the documents of its games.
--
-- Parts. A console creates a matchmaking ticket, opens a stream that tracks it, and may cancel it
-- (matchmaking.go). The stream puts a waiter in one queue; when enough distinct players wait for
-- one mode, a game session is formed, each player is answered through his stream, and the registers
-- that the gamesync service reads (gamesync.go) are filled; in the game, the consoles write
-- documents to a store, under the identifier of a game that the service chooses, and list its
-- collections. In a Splatfest the players are opposed by camp (fest_equipes.go). Independently, the
-- schedule of stages is generated from the number of a slot of two hours (rotation_generee.go), the
-- calendar of a Splatfest comes from the flags of the operator (fest_genere.go, fest_duree.go,
-- fest_phase.go), its players choose their camp (fest_entries.go), the camp that leads at mid-fest
-- defends from then on (fest_intermede.go), a Splatfest that has ended is scored from the shares of
-- its camps (fest_bareme.go), the address in a captured session is replaced by the server's own
-- (session_address_rewrite.go), and every call passes the check of a register of bans (ban.go).
--
-- Files. Base: strings, maps, lists and sorting. Matchmaking/Modes: lastSeg, baseConfigName,
-- s3RoomCapacity and the names of the modes. Matchmaking/Types: the messages and matchmakerServer.
-- Matchmaking/Queue: waitersForConfigLocked, configsEnAttenteLocked, seuilCourantLocked
-- (matchmaking_seuil_attente.go). Matchmaking/Participants: noterParticipant and its kin.
-- Matchmaking/Teams: campDuTicket and repartirParCamp. Matchmaking/Form: formMatchLocked.
-- Matchmaking/Tickets: CreateMatchmakingTicket, TrackMatchmakingTicket, CancelMatchmakingTicket,
-- and in Tickets/Run the sequences of requests. Rotation: melangeStages, tireStages,
-- stagesDuCreneau; Rotation/Schedule: rotationEngendree. Ban and Ban/Uid: the register, refresh,
-- the UIDs; Ban/Requests: requireAllowed, trackStream, ban, unbanTarget, requireSignedCaller.
-- Scoring: classementParParts, placesAvecEgalites, placesDuCritere, classementsDeLaFete. Session:
-- reecrireChamp, remplacerChaine, reecrireChaine, reecrireHotePort, reecrireAdresseSession, over
-- the package protowire as the interface Wire; Session/Fields reads a message as its fields. Fest:
-- debutDeLaFeteMaison and dureeDeFete; Fest/Maison: festMaison and phaseDeLaFete; Fest/Entries:
-- GetFestEntry and CreateFestEntry, over the sequences of calls and restarts of Fest/Choice;
-- Fest/Intermede: the counts of victories and ink and honsaiMidtermDeLaFete, over the sequences of
-- Fest/Suites. Gamesync: cleStore, applyWritesToStore, docsSousCollection; Gamesync/Streams: wake,
-- reveillerLaPartie; Gamesync/Departure: oublierSession. The modules named Examples, FestExamples
-- and IntermedeExamples hold the theorems at concrete data.
--
-- Correspondence. A handler holds its mutex while it reads and writes, so each is one step from a
-- state to a state; honsaiMidtermDeLaFete, reveillerLaPartie and oublierSession, which take a mutex
-- more than once, are one step too. TrackMatchmakingTicket is split where it gives the mutex up: it
-- reads the ticket, sends heartbeats for two seconds and then enqueues, and other requests may come
-- between. The identity of a waiter is a number, for the pointer that the code compares; a channel
-- of capacity 1 is an option; a map is a list of entries in the order of iteration, so what is
-- proved for every list holds for every order. The uuids of a call are a supply that the setting
-- gives. Clocks, environment flags, the file of the bans and the answers of the account service are
-- arguments; float64 is an interface of the comparisons that the scoring makes. An instant of Fest
-- is a number of nanoseconds since the first day of the year 1, the zero time of Go, and the clock
-- stands after 1970; its seconds are an int64, at which Time.Add stops, and a start in the flags so
-- large that time.Unix would wrap is not modelled; a flag is read once in a call. Integers of 64
-- bits keep their wrap-around where the code hashes them. Every function here is structurally
-- recursive, but the digits of a number (Ban/Uid), which stop at the twenty digits that a 64-bit
-- number has, the search of a Saturday (Fest), which needs eight days, and the loops over a message
-- (Session), which have as many rounds as it has bytes, since every round takes one at least.
--
-- Left out. NPLN_MATCH_MODE other than instant and NPLN_MM_REPLAY, the state that a stream shows
-- while it waits, field 9 and the creation times of the messages; the signing of tokens, which
-- stand as the arguments that they are minted from; the PID and the presence counters of the
-- monitoring page; the command line and the interceptors of ban.go; private rooms, the votes of a
-- Splatfest and the reading of a verdict, the journal; the arbiter, KeepUserSession and the made-up
-- documents of gamesync, cloud saves and the replay of captures. Bytes are ASCII as far as case and
-- white space go.
pub mod Base
pub mod Matchmaking
pub mod Rotation
pub mod Ban
pub mod Scoring
pub mod Session
pub mod Fest
pub mod Gamesync
