-- ===== src/Matchmaking/Form/Roster.antt =====
-- matchmaking.go, formMatchLocked: the session of a complete group of players.
use splatoon.Base.{
  ℕ, ◌≤◌, ◌<◌, ◌≡◌, ◌≢◌, refl, ap, ◌∙◌, subst, true, false, not, some, List, [], ◌∷◌, ◌++◌, ltb,
  map, Text, text_eq_iff, length, take, keep, All, AllPairs, All-take, AllPairs-take, length-take,
  arith,
}
use splatoon.Matchmaking.Modes.{s3_room_capacity, seuil_pour_config, base_config_name}
use splatoon.Matchmaking.Modes.Paths.{
  config_path, IsSegment, base_config_name-config_path, s3_room_capacity-config_path,
  s3_room_capacity_idem,
}
use splatoon.Matchmaking.Types.{Ticket, Waiter, Server}
use splatoon.Matchmaking.Queue.{wants, waiters_for_config}
use splatoon.Matchmaking.Queue.Distinct.{
  OtherPlayer, All-waiters_for_config, waiters_for_config-wants, waiters_for_config-OtherPlayer,
}
use splatoon.Matchmaking.Teams.{Slots, no_slots, est_file_de_fete}
use splatoon.Matchmaking.Form.{Setting, new_session, requested_config, is_served, seat, form_match}
use splatoon.Matchmaking.Form.Seat.{
  IsWaiting, HasMatch, hand_all, serve_all-answered, hand_all-HasMatch, HasTeam, hand_all-HasTeam,
  hand_all-ids,
}

-- The ticket asks for the path of a configuration.
abbrev pub IsNamed : Waiter → Type 0
IsNamed w =
    (t : Ticket) × (x : Text) × (w.ticket ≡ some t)
    × (t.matchmaking_config ≡ config_path x)
    × IsSegment x

-- A session formed for `players`: complete, of distinct players of one mode, each of whom is answered
-- with the session and leaves the queue; the others stay in the queue in their order. Where `creneau`
-- gives a player a slot, his token is for its team.
pub record Seated (st : Setting) (cfg : Text) (players : List Waiter) (creneau : Slots)
    (s s' : Server) : Type 1 where
  pub nonempty : players ≢ []
  pub among : (P : Waiter → Type 0) → All P s.waiting → All P players
  pub of_mode : All (λ w. wants cfg w ≡ true) players
  pub others : AllPairs OtherPlayer players
  pub complete : length players ≡ seuil_pour_config cfg st.match_size
  pub announced : (new_session st players).current_participant_count ≡ length players
  pub capacity : (new_session st players).max_participant_count ≡ length players
  pub answered :
      s'.answered
      ≡ s.answered
        ++ hand_all st (new_session st players) (requested_config players) creneau 0 players
  pub same_players :
      map
        (λ w. w.id)
        (hand_all st (new_session st players) (requested_config players) creneau 0 players)
      ≡ map (λ w. w.id) players
  pub matched :
      All
        (HasMatch (new_session st players))
        (hand_all st (new_session st players) (requested_config players) creneau 0 players)
  pub teams :
      All
        (HasTeam creneau)
        (hand_all st (new_session st players) (requested_config players) creneau 0 players)
  pub left : s'.waiting ≡ keep (λ w. not (is_served players w)) s.waiting

-- A session is formed for some players.
pub record Formed (st : Setting) (cfg : Text) (s s' : Server) : Type 1 where
  pub players : List Waiter
  pub creneau : Slots
  pub seated : Seated st cfg players creneau s s'

-- What a waiter of a mode asks for is the path of that mode.
pub wanted_path :
    (cfg : Text) (w : Waiter)
    → IsNamed w
    → wants cfg w ≡ true
    → (t : Ticket) × (w.ticket ≡ some t) × (t.matchmaking_config ≡ config_path cfg) × IsSegment cfg
unfolding wants
wanted_path cfg w (t, x, has, path, seg) h =
    let is_x : x ≡ cfg = ground (
      arith,
      base_config_name-config_path x seg,
      text_eq_iff (base_config_name t.matchmaking_config) cfg,
      ap base_config_name path,
    ) in
    (t, has, path ∙ ap config_path is_x, subst IsSegment is_x seg)

-- The announced capacity is the number of players, where that is the target of their mode.
capacity_of_players :
    (cfg : Text) (m : ℕ) (players : List Waiter)
    → players ≢ []
    → All IsNamed players
    → All (λ w. wants cfg w ≡ true) players
    → length players ≡ s3_room_capacity cfg m
    → s3_room_capacity (requested_config players) (length players) ≡ length players
capacity_of_players cfg m [] n named h e = absurd (n refl)
capacity_of_players cfg m (w ∷ ws) n named h e =
    let (t, has, path, seg) = wanted_path cfg w named.0 h.0 in
    let asks : requested_config (w ∷ ws) ≡ config_path cfg = ground arith in
    rw (asks, s3_room_capacity-config_path cfg (length (w ∷ ws)))
      (s3_room_capacity_idem cfg m (length (w ∷ ws)) e)

module _ (st : Setting) (cfg : Text) (s : Server) (named : All IsNamed s.waiting)
    (waits : All IsWaiting s.waiting) where
  -- Seating a complete choice of players of the mode forms their session.
  pub seat-Seated :
      (players : List Waiter) (creneau : Slots)
      → players ≢ []
      → ((P : Waiter → Type 0) → All P s.waiting → All P players)
      → All (λ w. wants cfg w ≡ true) players
      → AllPairs OtherPlayer players
      → length players ≡ seuil_pour_config cfg st.match_size
      → Seated st cfg players creneau s (seat st cfg players creneau s)
  unfolding seat new_session seuil_pour_config
  seat-Seated [] creneau n among mode others e = absurd (n refl)
  seat-Seated (p ∷ ps) creneau n among mode others e =
      let players = p ∷ ps in
      let full = capacity_of_players cfg st.match_size players n (among IsNamed named) mode e in
      record {
        nonempty = n;
        among = among;
        of_mode = mode;
        others = others;
        complete = e;
        announced = full;
        capacity = full;
        answered =
            serve_all-answered st (new_session st players) (requested_config players) creneau 0
              players _;
        matched =
            hand_all-HasMatch st (new_session st players) (requested_config players) creneau 0
              players (among IsWaiting waits);
        same_players =
            hand_all-ids st (new_session st players) (requested_config players) creneau 0 players
              (among IsWaiting waits);
        teams =
            hand_all-HasTeam st (new_session st players) (requested_config players) creneau 0
              players (among IsWaiting waits);
        left = refl;
      }

  -- Outside a Splatfest, where every waiter of the queue has a ticket for a configuration path and
  -- has been sent nothing, as soon as the target of a mode, which is positive, is reached by
  -- distinct waiting players, formMatchLocked forms their session: exactly the target's number of
  -- players of that mode, of different identities where they have one, announced as such and as the
  -- capacity, each answered with his own entry and token for that session; they leave the queue, and
  -- the others stay in their order.
  pub form_match-Formed :
      est_file_de_fete cfg ≡ false
      → 0 < seuil_pour_config cfg st.match_size
      → seuil_pour_config cfg st.match_size ≤ length (waiters_for_config cfg s.waiting)
      → Formed st cfg s (form_match st cfg s)
  unfolding form_match
  form_match-Formed fest one enough =
      let seuil = seuil_pour_config cfg st.match_size in
      let all = waiters_for_config cfg s.waiting in
      let many : ltb (length all) seuil ≡ false = ground arith in
      let number : length (take seuil all) ≡ seuil = omega (arith, length-take seuil all) in
      rw (many, fest)
        (record {
          players = take seuil all;
          creneau = no_slots;
          seated =
              seat-Seated (take seuil all) no_slots (λ e. absurd (omega (arith, ap length e)))
                (λ P h. All-take P seuil all (All-waiters_for_config P cfg s.waiting h))
                (All-take _ seuil all (waiters_for_config-wants cfg s.waiting))
                (AllPairs-take _ seuil all (waiters_for_config-OtherPlayer cfg s.waiting)) number;
        })
