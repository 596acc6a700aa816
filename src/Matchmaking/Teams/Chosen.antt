-- ===== src/Matchmaking/Teams/Chosen.antt =====
-- fest_equipes.go: the players whom the distribution chooses.
use splatoon.Base.{
  ℕ, ◌+◌, ◌≤◌, ◌≡◌, sym, subst, List, ◌++◌, Text, text_eq, text_eq_iff, length, All, AllPairs,
  All-append, All-take, All-keep, All-map, All-zip, AllPairs-take, AllPairs-keep, AllPairs-append,
  AllPairs-cross, length-append, length-take, Differ, Differ-sym, arith,
}
use splatoon.Matchmaking.Types.{Waiter}
use splatoon.Matchmaking.Queue.Distinct.{OtherPlayer}
use splatoon.Matchmaking.Teams.{Slots, camp_du_ticket}
use splatoon.Matchmaking.Teams.Groups.{of_camp}
use splatoon.Matchmaking.Teams.Balance.{IsBalanced, squad}
use splatoon.Matchmaking.Teams.Tricolore.{IsTricolore}

pub OtherPlayer-sym : (w v : Waiter) → OtherPlayer w v → OtherPlayer v w
OtherPlayer-sym w v h = ground (arith, text_eq_iff w.uid v.uid, text_eq_iff v.uid w.uid)

-- A choice of players for a session of `n`.
pub record IsChoice (players chosen : List Waiter) (n : ℕ) : Type 1 where
  pub among : (P : Waiter → Type 0) → All P players → All P chosen
  pub others : AllPairs OtherPlayer chosen
  pub number : length chosen ≡ n

module _ (players : List Waiter) (apart : AllPairs OtherPlayer players) where
  length-squad :
      (n : ℕ) (a : Text) → n ≤ length (of_camp a players) → length (squad n a players) ≡ n
  length-squad n a h = omega (arith, length-take n (of_camp a players))

  All-squad : (P : Waiter → Type 0) (n : ℕ) (a : Text) → All P players → All P (squad n a players)
  All-squad P n a h = All-take P n _ (All-keep P _ players h)

  squad-others : (n : ℕ) (a : Text) → AllPairs OtherPlayer (squad n a players)
  squad-others n a = AllPairs-take _ n _ (AllPairs-keep _ _ players apart)

  squads-others :
      (n k : ℕ) (a b : Text)
      → Differ a b
      → All (λ w. All (OtherPlayer w) (squad k b players)) (squad n a players)
  squads-others n k a b d = All-take _ n _ (
      All-map _ _ (λ w h. All-take (OtherPlayer w) k _ h) (of_camp a players)
        (AllPairs-cross OtherPlayer (λ w. text_eq (camp_du_ticket w) a)
          (λ w. text_eq (camp_du_ticket w) b)
          (λ w e. ground (
            arith,
            text_eq_iff (camp_du_ticket w) a,
            text_eq_iff (camp_du_ticket w) b,
            text_eq_iff a b,
          ))
          OtherPlayer-sym players apart))

  pub IsBalanced-IsChoice :
      (n : ℕ) (c : List Waiter × Slots) → IsBalanced players n c → IsChoice players c.0 (n + n)
  IsBalanced-IsChoice n c b =
      let xs = squad n b.camp_a players in
      let ys = squad n b.camp_b players in
      record {
        among = λ P h.
            subst (All P) (sym b.squads)
              (All-append P xs ys (All-squad P n b.camp_a h) (All-squad P n b.camp_b h));
        others = subst (AllPairs OtherPlayer) (sym b.squads) (
            AllPairs-append OtherPlayer xs ys (squad-others n b.camp_a) (squad-others n b.camp_b)
              (squads-others n n b.camp_a b.camp_b b.different));
        number = rw b.squads (
            omega (
              arith,
              length-append xs ys,
              length-squad n b.camp_a b.full_a,
              length-squad n b.camp_b b.full_b,
            ));
      }

  pub IsTricolore-IsChoice :
      (d : Text) (c : List Waiter × Slots) → IsTricolore players d c → IsChoice players c.0 8
  IsTricolore-IsChoice d c t =
      let ds = squad 4 d players in
      let xs = squad 2 t.camp_a players in
      let ys = squad 2 t.camp_b players in
      record {
        among = λ P h. subst (All P) (sym t.squads) (
            All-append P ds (xs ++ ys) (All-squad P 4 d h)
              (All-append P xs ys (All-squad P 2 t.camp_a h) (All-squad P 2 t.camp_b h)));
        others = subst (AllPairs OtherPlayer) (sym t.squads) (
            AllPairs-append OtherPlayer ds (xs ++ ys) (squad-others 4 d)
              (AllPairs-append OtherPlayer xs ys (squad-others 2 t.camp_a) (squad-others 2 t.camp_b)
                (squads-others 2 2 t.camp_a t.camp_b t.different))
              (All-map _ _ (λ w h. All-append (OtherPlayer w) xs ys h.0 h.1) ds
                (All-zip _ _ ds (squads-others 4 2 d t.camp_a (Differ-sym t.camp_a d t.apart_a))
                  (squads-others 4 2 d t.camp_b (Differ-sym t.camp_b d t.apart_b)))));
        number = rw t.squads (
            omega (
              arith,
              length-append ds (xs ++ ys),
              length-append xs ys,
              length-squad 4 d t.full,
              length-squad 2 t.camp_a t.full_a,
              length-squad 2 t.camp_b t.full_b,
            ));
      }
