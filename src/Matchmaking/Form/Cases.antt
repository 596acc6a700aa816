-- ===== src/Matchmaking/Form/Cases.antt =====
-- matchmaking.go, formMatchLocked: its outcomes.
use splatoon.Base.{
  ℕ, ◌/◌, ◌≡◌, inl, inr, some, List, take, ltb, Text, All, All-map, All-take, length, Bool-cases,
  Option-cases,
}
use splatoon.Matchmaking.Modes.{seuil_pour_config}
use splatoon.Matchmaking.Types.{Waiter, Server}
use splatoon.Matchmaking.Queue.{waiters_for_config, seuil_courant}
use splatoon.Matchmaking.Queue.Distinct.{All-waiters_for_config, waiters_for_config-OtherPlayer}
use splatoon.Matchmaking.Teams.{
  Env, Slots, no_slots, est_file_de_fete, est_tricolore, repartir_par_camp,
}
use splatoon.Matchmaking.Teams.Groups.{SameObject}
use splatoon.Matchmaking.Teams.Balance.{repartir_par_camp-IsBalanced}
use splatoon.Matchmaking.Teams.Tricolore.{repartir_par_camp-IsTricolore}
use splatoon.Matchmaking.Teams.Chosen.{IsBalanced-IsChoice, IsTricolore-IsChoice}
use splatoon.Matchmaking.Form.{Setting, seat, seat_camps, form_match}

-- The distribution chooses among the players.
chosen_among :
    (env : Env) (ws : List Waiter) (seuil detendu : ℕ) (cfg fest_id : Text)
    (chosen : List Waiter × Slots)
    → SameObject (waiters_for_config cfg ws)
    → repartir_par_camp env (waiters_for_config cfg ws) seuil detendu cfg fest_id ≡ some chosen
    → (P : Waiter → Type 0) → All P (waiters_for_config cfg ws)
    → All P chosen.0
chosen_among env ws seuil detendu cfg fest_id chosen same r =
    let all = waiters_for_config cfg ws in
    let apart = waiters_for_config-OtherPlayer cfg ws in
    elim (Bool-cases (est_tricolore env cfg)) [
      | inl t ↦
          (IsTricolore-IsChoice all apart (env.camp_defenseur fest_id) chosen
            (repartir_par_camp-IsTricolore all env seuil detendu cfg fest_id same t r)).among
      | inr t ↦
          (IsBalanced-IsChoice all apart (seuil / 2) chosen
            (repartir_par_camp-IsBalanced all same env seuil detendu cfg fest_id t r)).among
    ]

-- The server is as it was, or some players of the queue have been seated.
pub form_match_cases :
    (P : Server → Type 0) (st : Setting) (cfg : Text) (s : Server)
    → SameObject s.waiting
    → P s
    → ((players : List Waiter) (creneau : Slots)
        → ((Q : Waiter → Type 0) → All Q s.waiting → All Q players)
        → P (seat st cfg players creneau s))
    → P (form_match st cfg s)
unfolding form_match seat_camps
form_match_cases P st cfg s same stay go =
    let all = waiters_for_config cfg s.waiting in
    let seuil = seuil_pour_config cfg st.match_size in
    let same' : SameObject all =
      All-waiters_for_config _ cfg s.waiting
        (All-map _ _ (λ w h. All-waiters_for_config _ cfg s.waiting h) s.waiting same) in
    elim (Bool-cases (ltb (length all) seuil)) [
      | inl few ↦ rw few stay
      | inr many ↦ elim (Bool-cases (est_file_de_fete cfg)) [
        | inr plain ↦
            rw (many, plain)
              (go (take seuil all) no_slots
                (λ Q h. All-take Q seuil all (All-waiters_for_config Q cfg s.waiting h)))
        | inl fest ↦
            elim (Option-cases (
              repartir_par_camp st.env all seuil (seuil_courant st.now cfg seuil s.waiting).0 cfg
                st.fest_id)) [
                  | inl e ↦ rw (many, fest, e) stay
                  | inr ((choisis, creneau), e) ↦
                      rw (many, fest, e)
                        (go (take seuil choisis) creneau (λ Q h. All-take Q seuil choisis (
                          chosen_among st.env s.waiting seuil
                            (seuil_courant st.now cfg seuil s.waiting).0 cfg st.fest_id
                            (choisis, creneau) same' e Q
                            (All-waiters_for_config Q cfg s.waiting h))))
                ]
      ]
    ]
