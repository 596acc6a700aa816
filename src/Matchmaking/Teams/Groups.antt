-- ===== src/Matchmaking/Teams/Groups.antt =====
-- fest_equipes.go: what the grouping by camp and the table of slots hold.
use splatoon.Base.{
  ℕ, ◌≡◌, refl, sym, ap, ◌∙◌, true, false, inl, inr, List, [], ◌∷◌, ◌++◌, if◌then◌else◌, ◌==◌, Text,
  is_empty, text_eq, text_eq_iff, keep, any, All, All-map, All-keys-insert, Assoc, lookup, keys,
  lookup-insert, IsMap, insert-IsMap, Bool-cases, arith, Differ, ==_iff,
}
use mathlib.Core.List.{append-nil, append_assoc}
use splatoon.Matchmaking.Types.{Waiter}
use splatoon.Matchmaking.Teams.{
  camp_du_ticket, members, add_member, group_from, par_camp, Slots, put_slot, assign,
}

-- The players of one camp, in the order of the queue.
abbrev pub of_camp : Text → List Waiter → List Waiter
of_camp c players = keep (λ w. text_eq (camp_du_ticket w) c) players

members-add :
    (c : Text) (m : Assoc (List Waiter)) (w : Waiter)
    → is_empty c ≡ false
    → members c (add_member m w)
      ≡ (if text_eq (camp_du_ticket w) c then members c m ++ w ∷ [] else members c m)
members-add c m w h = ground (
  arith,
  text_eq_iff (camp_du_ticket w) c,
  lookup-insert (camp_du_ticket w) c (members (camp_du_ticket w) m ++ w ∷ []) m,
)

members-group :
    (c : Text) (m : Assoc (List Waiter)) (ws : List Waiter)
    → is_empty c ≡ false
    → members c (group_from m ws) ≡ members c m ++ of_camp c ws
unfolding group_from
members-group c m [] h = sym (append-nil _)
members-group c m (w ∷ ws) h = elim (Bool-cases (text_eq (camp_du_ticket w) c)) [
  | inl e ↦ rw e (
      members-group c (add_member m w) ws h
      ∙ ap (λ l. l ++ of_camp c ws) (rw e at (members-add c m w h))
      ∙ append_assoc (members c m) (w ∷ []) (of_camp c ws))
  | inr e ↦ rw e (
      members-group c (add_member m w) ws h
      ∙ ap (λ l. l ++ of_camp c ws) (rw e at (members-add c m w h)))
]

-- parCamp holds exactly the players of each camp.
pub members-par_camp :
    (c : Text) (ws : List Waiter) → is_empty c ≡ false → members c (par_camp ws) ≡ of_camp c ws
unfolding par_camp lookup
members-par_camp c ws h = members-group c [] ws h

abbrev pub HasName : Text → Type 0
HasName c = is_empty c ≡ false

group-IsMap : (m : Assoc (List Waiter)) (ws : List Waiter) → IsMap m → IsMap (group_from m ws)
unfolding group_from
group-IsMap m [] h = h
group-IsMap m (w ∷ ws) h = elim (Bool-cases (is_empty (camp_du_ticket w))) [
  | inl e ↦ group-IsMap (add_member m w) ws (rw e h)
  | inr e ↦ group-IsMap (add_member m w) ws (rw e (insert-IsMap _ _ m h))
]

pub par_camp-IsMap : (ws : List Waiter) → IsMap (par_camp ws)
unfolding par_camp
par_camp-IsMap ws = group-IsMap [] ws tt

-- The slot of a player is the last one written for its identity.
pub assign_lem :
    (slot : Text) (ws : List Waiter) (f : Slots) (j : ℕ)
    → assign slot ws f j ≡ (if any (λ w. j == w.id) ws then slot else f j)
unfolding assign
assign_lem slot [] f j = refl
assign_lem slot (w ∷ ws) f j = ground (arith, assign_lem slot ws (put_slot f w.id slot) j)

group-HasName :
    (m : Assoc (List Waiter)) (ws : List Waiter)
    → All HasName (keys m)
    → All HasName (keys (group_from m ws))
unfolding group_from
group-HasName m [] h = h
group-HasName m (w ∷ ws) h = elim (Bool-cases (is_empty (camp_du_ticket w))) [
  | inl e ↦ group-HasName (add_member m w) ws (rw e h)
  | inr e ↦ group-HasName (add_member m w) ws (rw e (All-keys-insert HasName _ _ m e h))
]

pub par_camp-HasName : (ws : List Waiter) → All HasName (keys (par_camp ws))
unfolding par_camp
par_camp-HasName ws = group-HasName [] ws tt

-- Two waiters with one identity are one object.
abbrev pub SameObject : List Waiter → Type 0
SameObject ws = All (λ w. All (λ v. w.id ≡ v.id → w ≡ v) ws) ws

-- No player of one camp has the identity of a player of another.
pub absent_from_other :
    (a b : Text) (w : Waiter) (vs : List Waiter)
    → Differ a b
    → text_eq (camp_du_ticket w) a ≡ true
    → All (λ v. text_eq (camp_du_ticket v) b ≡ true) vs
    → All (λ v. w.id ≡ v.id → w ≡ v) vs
    → any (λ v. w.id == v.id) vs ≡ false
absent_from_other a b w [] d e h k = refl
absent_from_other a b w (v ∷ vs) d e h k = elim (Bool-cases (w.id == v.id)) [
  | inl same ↦ absurd (
      ground (
        arith,
        ap camp_du_ticket (k.0 ((==_iff w.id v.id).0 same)),
        h.0,
        text_eq_iff (camp_du_ticket w) a,
        text_eq_iff (camp_du_ticket v) b,
        text_eq_iff a b,
      ))
  | inr other ↦ rw (other, any) (absent_from_other a b w vs d e h.1 k.1)
]

-- A player who is listed has the slot that the listing writes.
pub any_self : (ws : List Waiter) → All (λ w. any (λ v. w.id == v.id) ws ≡ true) ws
any_self [] = tt
any_self (w ∷ ws) = (
  ground arith,
  All-map (λ v. any (λ u. v.id == u.id) ws ≡ true) _ (λ v p. ground arith) ws (any_self ws),
)

pub slot_here :
    (slot : Text) (ws : List Waiter) (f : Slots) → All (λ w. assign slot ws f w.id ≡ slot) ws
slot_here slot ws f =
    All-map (λ w. any (λ v. w.id == v.id) ws ≡ true) _ (λ w h. rw (assign_lem slot ws f w.id, h)) ws
      (any_self ws)

pub slot_kept :
    (slot s : Text) (ws xs : List Waiter) (f : Slots)
    → All (λ w. any (λ v. w.id == v.id) ws ≡ false) xs
    → All (λ w. f w.id ≡ s) xs
    → All (λ w. assign slot ws f w.id ≡ s) xs
slot_kept slot s ws [] f h k = tt
slot_kept slot s ws (x ∷ xs) f h k =
    (rw (assign_lem slot ws f x.id, h.0) k.0, slot_kept slot s ws xs f h.1 k.1)
