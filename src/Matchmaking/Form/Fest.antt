-- ===== src/Matchmaking/Form/Fest.antt =====
-- matchmaking.go and fest_equipes.go: the sessions of the queues of a Splatfest.
use splatoon.Base.{
  ℕ, ◌+◌, ◌/◌, ◌≤◌, ◌<◌, ◌≡◌, sym, ap, subst, true, false, inl, inr, some, List, [], ◌∷◌, ltb, Text,
  codes, contains, length, take, All, All-take, AllPairs-take, All-map, length-take, Bool-cases,
  arith,
}
use splatoon.Matchmaking.Modes.{seuil_pour_config}
use splatoon.Matchmaking.Modes.Paths.{IsSegment, last_seg-segment, fest_even}
use splatoon.Matchmaking.Types.{Waiter, Server}
use splatoon.Matchmaking.Queue.{wants, waiters_for_config, seuil_courant}
use splatoon.Matchmaking.Queue.Distinct.{
  All-waiters_for_config, waiters_for_config-wants, waiters_for_config-OtherPlayer,
}
use splatoon.Matchmaking.Teams.{Slots, est_file_de_fete, est_tricolore, repartir_par_camp}
use splatoon.Matchmaking.Teams.Groups.{SameObject}
use splatoon.Matchmaking.Teams.Balance.{repartir_par_camp-IsBalanced}
use splatoon.Matchmaking.Teams.Tricolore.{repartir_par_camp-IsTricolore}
use splatoon.Matchmaking.Teams.Chosen.{IsChoice, IsBalanced-IsChoice, IsTricolore-IsChoice}
use splatoon.Matchmaking.Form.{Setting, seat_camps, form_match}
use splatoon.Matchmaking.Form.Seat.{IsWaiting}
use splatoon.Matchmaking.Form.Roster.{IsNamed, Seated, wanted_path, seat-Seated}

IsSegment-of :
    (cfg : Text) (ws : List Waiter)
    → 0 < length ws
    → All IsNamed ws
    → All (λ w. wants cfg w ≡ true) ws
    → IsSegment cfg
IsSegment-of cfg [] h n m = absurd (omega arith)
IsSegment-of cfg (w ∷ ws) h n m = (wanted_path cfg w n.0 m.0).3

-- The target of a queue of a Splatfest is even.
even_target :
    (cfg : Text) (m : ℕ)
    → IsSegment cfg
    → est_file_de_fete cfg ≡ true
    → seuil_pour_config cfg m / 2 + seuil_pour_config cfg m / 2 ≡ seuil_pour_config cfg m
unfolding seuil_pour_config est_file_de_fete
even_target cfg m seg h =
    fest_even cfg m (subst (λ c. contains c (codes "fest") ≡ true) (last_seg-segment cfg seg) h)

module _ (st : Setting) (cfg : Text) (s : Server) (named : All IsNamed s.waiting)
    (waits : All IsWaiting s.waiting) (same : SameObject s.waiting)
    (fest : est_file_de_fete cfg ≡ true)
    (tri : est_tricolore st.env cfg ≡ true → seuil_pour_config cfg st.match_size ≡ 8)
    (few : 2 ≤ length (waiters_for_config cfg s.waiting)) where
  players_same : SameObject (waiters_for_config cfg s.waiting)
  players_same =
      All-waiters_for_config _ cfg s.waiting
        (All-map _ _ (λ w h. All-waiters_for_config _ cfg s.waiting h) s.waiting same)

  cfg-IsSegment : IsSegment cfg
  cfg-IsSegment =
      IsSegment-of cfg (waiters_for_config cfg s.waiting) (omega arith)
        (All-waiters_for_config IsNamed cfg s.waiting named)
        (waiters_for_config-wants cfg s.waiting)

  -- The distribution among the camps is a choice of the right number of players.
  fest-IsChoice :
      (detendu : ℕ) (chosen : List Waiter × Slots)
      → repartir_par_camp st.env
          (waiters_for_config cfg s.waiting)
          (seuil_pour_config cfg st.match_size)
          detendu
          cfg
          st.fest_id
        ≡ some chosen
      → IsChoice (waiters_for_config cfg s.waiting) chosen.0 (seuil_pour_config cfg st.match_size)
  fest-IsChoice detendu chosen e =
      let apart = waiters_for_config-OtherPlayer cfg s.waiting in
      let all = waiters_for_config cfg s.waiting in
      let seuil = seuil_pour_config cfg st.match_size in
      elim (Bool-cases (est_tricolore st.env cfg)) [
        | inl t ↦ subst (IsChoice all chosen.0) (sym (tri t)) (
            IsTricolore-IsChoice all apart _ chosen (
              repartir_par_camp-IsTricolore all st.env seuil detendu cfg st.fest_id players_same t
                e))
        | inr t ↦ subst (IsChoice all chosen.0) (even_target cfg st.match_size cfg-IsSegment fest) (
            IsBalanced-IsChoice all apart (seuil / 2) chosen (
              repartir_par_camp-IsBalanced all players_same st.env seuil detendu cfg st.fest_id t
                e))
      ]

  -- In a queue of a Splatfest with at least two distinct waiters, whose waiters are different
  -- objects that have a ticket for a configuration path and have been sent nothing, and whose target
  -- is positive and, for a tricolore queue, eight: if the target is reached and repartirParCamp
  -- makes a choice, formMatchLocked forms a complete session of distinct players of the mode, who
  -- are those of the choice in its order, cut to the target; each is answered with a token whose
  -- team is that of the slot that the choice gives him, if it gives one.
  pub form_match_camps :
      (chosen : List Waiter × Slots)
      → 0 < seuil_pour_config cfg st.match_size
      → seuil_pour_config cfg st.match_size ≤ length (waiters_for_config cfg s.waiting)
      → repartir_par_camp st.env
          (waiters_for_config cfg s.waiting)
          (seuil_pour_config cfg st.match_size)
          (seuil_courant st.now cfg (seuil_pour_config cfg st.match_size) s.waiting).0
          cfg
          st.fest_id
        ≡ some chosen
      → Seated st cfg
          (take (seuil_pour_config cfg st.match_size) chosen.0)
          chosen.1
          s
          (form_match st cfg s)
  unfolding form_match seat_camps
  form_match_camps (choisis, creneau) one enough e =
      let seuil = seuil_pour_config cfg st.match_size in
      let all = waiters_for_config cfg s.waiting in
      let many : ltb (length all) seuil ≡ false = ground arith in
      let choice =
        fest-IsChoice (seuil_courant st.now cfg seuil s.waiting).0 (choisis, creneau) e in
      let number : length (take seuil choisis) ≡ seuil =
        omega (arith, length-take seuil choisis, choice.number) in
      let among =
        λ (P : Waiter → Type 0) (h : All P all). All-take P seuil choisis (choice.among P h) in
      rw (many, fest, e)
        (seat-Seated st cfg s named waits (take seuil choisis) creneau
          (λ e. absurd (omega (arith, ap length e)))
          (λ P h. among P (All-waiters_for_config P cfg s.waiting h))
          (among _ (waiters_for_config-wants cfg s.waiting))
          (AllPairs-take _ seuil choisis choice.others) number)
