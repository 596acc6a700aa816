-- ===== src/Matchmaking/FestExamples.antt =====
-- fest_equipes.go: the theorems on the queues of a Splatfest at concrete queues.
use splatoon.Base.{
  take, ◌≡◌, refl, ap, true, some, List, [], ◌∷◌, ◌++◌, Text, codes, All, length, lookup,
  last_index_byte, text_eq, text_lt, has_prefix, contains, arith, insert,
}
use splatoon.Matchmaking.Modes.{seuil_pour_config, base_config_name}
use splatoon.Matchmaking.Types.{Waiter}
use splatoon.Matchmaking.Queue.{waiters_for_config, seuil_courant}
use splatoon.Matchmaking.Teams.{
  Slots, camp_du_ticket, est_tricolore, repartir_par_camp, assign, no_slots,
}
use splatoon.Matchmaking.Teams.Balance.{IsBalanced, repartir_par_camp-IsBalanced}
use splatoon.Matchmaking.Teams.Enough.{repartir_par_camp_total}
use splatoon.Matchmaking.Teams.Tricolore.{IsTricolore, repartir_par_camp-IsTricolore}
use splatoon.Matchmaking.Teams.Groups.{SameObject}
use splatoon.Matchmaking.Form.{form_match}
use splatoon.Matchmaking.Form.Seat.{IsWaiting}
use splatoon.Matchmaking.Form.Roster.{IsNamed, Seated}
use splatoon.Matchmaking.Form.Fest.{form_match_camps}
use splatoon.Matchmaking.Tickets.Invariant.{SameObject-Apart}
use splatoon.Matchmaking.Examples.{
  calm, fest, setting, player, queued, IsSegment-fest, named, waits, fest_takes_eight, fest_is_fest,
  fest_not_tricolore,
}

abbrev alpha : Text
alpha = codes "Alpha"

abbrev bravo : Text
bravo = codes "Bravo"

abbrev charlie : Text
charlie = codes "Charlie"

-- Four players of each of two camps, and one of a third.
abbrev alphas : List Waiter
alphas = player 0 fest alpha ∷ player 2 fest alpha ∷ player 4 fest alpha ∷ player 6 fest alpha ∷ []

abbrev bravos : List Waiter
bravos = player 1 fest bravo ∷ player 3 fest bravo ∷ player 5 fest bravo ∷ player 7 fest bravo ∷ []

abbrev feast : List Waiter
feast =
    player 0 fest alpha
    ∷ player 1 fest bravo
    ∷ player 2 fest alpha
    ∷ player 3 fest bravo
    ∷ player 8 fest charlie
    ∷ player 4 fest alpha
    ∷ player 5 fest bravo
    ∷ player 6 fest alpha
    ∷ player 7 fest bravo
    ∷ []

abbrev balanced : List Waiter × Slots
balanced =
    (alphas ++ bravos, assign (codes "team2") bravos (assign (codes "team1") alphas no_slots))

feast_distributed : repartir_par_camp calm feast 8 8 fest [] ≡ some balanced
unfolding repartir_par_camp text_eq text_lt last_index_byte lookup insert camp_du_ticket
feast_distributed = refl

feast-SameObject : SameObject feast
feast-SameObject = SameObject-Apart feast (ground arith)

repartir_par_camp-IsBalanced_example : IsBalanced feast 4 balanced
repartir_par_camp-IsBalanced_example =
    repartir_par_camp-IsBalanced feast feast-SameObject calm 8 8 fest [] fest_not_tricolore
      feast_distributed

repartir_par_camp_total_example :
    (chosen : List Waiter × Slots) × (repartir_par_camp calm feast 8 8 fest [] ≡ some chosen)
unfolding text_eq camp_du_ticket lookup
repartir_par_camp_total_example =
    repartir_par_camp_total calm feast 8 8 fest [] alpha bravo (omega arith) refl fest_not_tricolore
      refl refl refl (omega arith) (omega arith)

abbrev tricolor : Text
tricolor = codes "fest_tricolor"

tricolor_is : est_tricolore calm tricolor ≡ true
unfolding est_tricolore last_index_byte contains has_prefix
tricolor_is = refl

abbrev defenders : List Waiter
defenders =
    player 0 tricolor alpha
    ∷ player 1 tricolor alpha
    ∷ player 2 tricolor alpha
    ∷ player 3 tricolor alpha
    ∷ []

abbrev first_two : List Waiter
first_two = player 4 tricolor bravo ∷ player 5 tricolor bravo ∷ []

abbrev last_two : List Waiter
last_two = player 6 tricolor charlie ∷ player 7 tricolor charlie ∷ []

abbrev three_camps : List Waiter
three_camps = last_two ++ (first_two ++ defenders)

abbrev deployed : List Waiter × Slots
deployed = (
  defenders ++ (first_two ++ last_two),
  assign (codes "team3") last_two
      (assign (codes "team2") first_two (assign (codes "team1") defenders no_slots)),
)

three_camps_distributed : repartir_par_camp calm three_camps 8 8 tricolor [] ≡ some deployed
unfolding repartir_par_camp text_eq text_lt last_index_byte lookup insert camp_du_ticket
three_camps_distributed = refl

repartir_par_camp-IsTricolore_example : IsTricolore three_camps alpha deployed
repartir_par_camp-IsTricolore_example =
    repartir_par_camp-IsTricolore three_camps calm 8 8 tricolor []
      (SameObject-Apart three_camps (ground arith)) tricolor_is three_camps_distributed

feast-IsNamed : All IsNamed feast
feast-IsNamed = (
  named 0 fest alpha IsSegment-fest,
  (
    named 1 fest bravo IsSegment-fest,
    (
      named 2 fest alpha IsSegment-fest,
      (
        named 3 fest bravo IsSegment-fest,
        (
          named 8 fest charlie IsSegment-fest,
          (
            named 4 fest alpha IsSegment-fest,
            (
              named 5 fest bravo IsSegment-fest,
              (named 6 fest alpha IsSegment-fest, (named 7 fest bravo IsSegment-fest, tt)),
            ),
          ),
        ),
      ),
    ),
  ),
)

feast-IsWaiting : All IsWaiting feast
feast-IsWaiting = (
  waits 0 fest alpha,
  (
    waits 1 fest bravo,
    (
      waits 2 fest alpha,
      (
        waits 3 fest bravo,
        (
          waits 8 fest charlie,
          (
            waits 4 fest alpha,
            (waits 5 fest bravo, (waits 6 fest alpha, (waits 7 fest bravo, tt))),
          ),
        ),
      ),
    ),
  ),
)

feast_waits : waiters_for_config fest feast ≡ feast
unfolding waiters_for_config base_config_name last_index_byte text_eq
feast_waits = refl

not_tricolore : est_tricolore calm fest ≡ true → seuil_pour_config fest 8 ≡ 8
not_tricolore t = fest_takes_eight

feast_formed :
    repartir_par_camp calm
      (waiters_for_config fest feast)
      (seuil_pour_config fest 8)
      (seuil_courant 1000 fest (seuil_pour_config fest 8) feast).0
      fest
      (codes "JUEA-00107")
    ≡ some balanced
unfolding repartir_par_camp text_eq text_lt last_index_byte lookup insert camp_du_ticket
    waiters_for_config base_config_name seuil_pour_config contains has_prefix seuil_courant
feast_formed = refl

form_match_camps_example :
    Seated setting fest
      (take (seuil_pour_config fest 8) balanced.0)
      balanced.1
      (queued feast)
      (form_match setting fest (queued feast))
form_match_camps_example =
    form_match_camps setting fest (queued feast) feast-IsNamed feast-IsWaiting feast-SameObject
      fest_is_fest not_tricolore (omega (arith, ap length feast_waits)) balanced
      (omega (arith, fest_takes_eight)) (omega (arith, ap length feast_waits, fest_takes_eight))
      feast_formed
