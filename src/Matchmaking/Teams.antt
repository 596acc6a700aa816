-- ===== src/Matchmaking/Teams.antt =====
-- fest_equipes.go: the camp that a player declares, and how a match of a Splatfest is made up of camps.
pub mod Groups
pub mod Balance
pub mod Enough
pub mod Tricolore
pub mod Chosen
use splatoon.Base.{
  ℕ, suc, ◌+◌, ◌-◌, ◌/◌, ◌≡◌, refl, Bool, true, false, not, ◌&&◌, ◌||◌, Option, none, some, List,
  [], ◌∷◌, ◌++◌, if◌then◌else◌, ltb, ◌==◌, ℤ, pos, negsuc, Text, codes, is_empty, contains, text_eq,
  text_lt, trim_space, to_lower, length, take, keep, Assoc, lookup, insert, keys, sort_by,
}
use splatoon.Matchmaking.Modes.{last_seg}
use splatoon.Matchmaking.Types.{
  Value, get_string_value, get_integer_value, UserDefinition, Ticket, Waiter,
}

unfoldable pub camp_depuis_nombre : ℤ → Text
camp_depuis_nombre (pos n) =
    if n == 0
    then codes "Alpha"
    else if n == 1
    then codes "Bravo"
    else if n == 2
    then codes "Charlie"
    else []
camp_depuis_nombre (negsuc n) = []

-- The attributes of the first user definition that has any.
unfoldable pub first_attributes : List UserDefinition → Option (Assoc Value)
first_attributes [] = none
first_attributes (ud ∷ uds) = elim ud.attributes [
  | [] ↦ first_attributes uds
  | f ∷ fs ↦ some (f ∷ fs)
]

or_else : Text → Text → Text
or_else [] t = t
or_else (c ∷ s) t = c ∷ s

camp_de_fest_team : Option Value → Text
unfolding or_else trim_space camp_depuis_nombre
camp_de_fest_team none = []
camp_de_fest_team (some v) =
    or_else (trim_space (get_string_value v)) (camp_depuis_nombre (get_integer_value v))

camp_de_fest_team_decimal : Option Value → Text
unfolding or_else trim_space camp_depuis_nombre
camp_de_fest_team_decimal none = []
camp_de_fest_team_decimal (some v) =
    or_else (camp_depuis_nombre (get_integer_value v)) (trim_space (get_string_value v))

unfoldable pub camp_des_attributs : Assoc Value → Text
unfolding camp_de_fest_team camp_de_fest_team_decimal
camp_des_attributs attrs =
    or_else (camp_de_fest_team (lookup (codes "fest_team") attrs))
      (camp_de_fest_team_decimal (lookup (codes "fest_team_decimal") attrs))

unfoldable pub camp_du_ticket : Waiter → Text
unfolding first_attributes camp_des_attributs
camp_du_ticket w = elim w.ticket [
  | none ↦ []
  | some t ↦ elim (first_attributes t.user_definitions) [
    | none ↦ []
    | some attrs ↦ camp_des_attributs attrs
  ]
]

unfoldable pub est_file_de_fete : Text → Bool
unfolding last_seg contains
est_file_de_fete cfg = contains (last_seg cfg) (codes "fest")

-- What the hot-reloaded flags say, and what the fest component answers.
pub record Env : Type 0 where
  pub soir_flag : Text → Bool
  pub soir_flag_valeur : Text → Text
  pub camp_defenseur : Text → Text

unfoldable pub est_tricolore : Env → Text → Bool
unfolding last_seg contains trim_space
est_tricolore env cfg =
    let c = last_seg cfg in
    let m = env.soir_flag_valeur (codes "festconfigtricolore") in
    if not (is_empty m) then contains c (to_lower (trim_space m)) else contains c (codes "tricolor")

-- parCamp[c]
abbrev pub members : Text → Assoc (List Waiter) → List Waiter
members c m = elim (lookup c m) [ none ↦ [] | some ws ↦ ws ]

abbrev add_member : Assoc (List Waiter) → Waiter → Assoc (List Waiter)
add_member m w =
    let c = camp_du_ticket w in if is_empty c then m else insert c (members c m ++ w ∷ []) m

group_from : Assoc (List Waiter) → List Waiter → Assoc (List Waiter)
group_from m [] = m
group_from m (w ∷ ws) = group_from (add_member m w) ws

unfoldable pub par_camp : List Waiter → Assoc (List Waiter)
unfolding group_from
par_camp players = group_from [] players

-- creneau: the slot of each player, "" for one that has none
abbrev pub Slots : Type 0
Slots = ℕ → Text

abbrev pub put_slot : Slots → ℕ → Text → Slots
put_slot f id slot j = if j == id then slot else f j

unfoldable pub assign : Text → List Waiter → Slots → Slots
assign slot [] f = f
assign slot (w ∷ ws) f = assign slot ws (put_slot f w.id slot)

abbrev pub no_slots : Slots
no_slots id = []

unfoldable pub attaquants : Text → Assoc (List Waiter) → List Text
attaquants defenseur m =
    keep (λ c. not (text_eq c defenseur) && ltb 1 (length (members c m))) (keys m)

unfoldable pub deploy_tricolore :
    Text → List Text → Assoc (List Waiter) → Option (List Waiter × Slots)
unfolding assign
deploy_tricolore d [] m = none
deploy_tricolore d (a ∷ []) m = none
deploy_tricolore d (a ∷ b ∷ rest) m =
    let ds = take 4 (members d m) in
    let as_ = take 2 (members a m) in
    let bs = take 2 (members b m) in
    some (
      ds ++ (as_ ++ bs),
      assign (codes "team3") bs (assign (codes "team2") as_ (assign (codes "team1") ds no_slots)),
    )

unfoldable pub repartir_tricolore : Env → Text → Assoc (List Waiter) → Option (List Waiter × Slots)
unfolding attaquants deploy_tricolore sort_by text_lt
repartir_tricolore env fest_id m =
    let d = env.camp_defenseur fest_id in
    if is_empty d || ltb (length (members d m)) 4
    then none
    else deploy_tricolore d (sort_by text_lt (attaquants d m)) m

-- The better represented camp first, then the names.
abbrev pub larger : Assoc (List Waiter) → Text → Text → Bool
larger m c d =
    if length (members c m) == length (members d m)
    then text_lt c d
    else ltb (length (members d m)) (length (members c m))

unfoldable pub deploy_camps : ℕ → List Text → Assoc (List Waiter) → Option (List Waiter × Slots)
unfolding assign
deploy_camps n [] m = none
deploy_camps n (a ∷ []) m = none
deploy_camps n (a ∷ b ∷ rest) m =
    if ltb (length (members a m)) n || ltb (length (members b m)) n
    then none
    else let as_ = take n (members a m) in
      let bs = take n (members b m) in
      some (as_ ++ bs, assign (codes "team2") bs (assign (codes "team1") as_ no_slots))

unfoldable pub repartir_par_camp :
    Env → List Waiter → ℕ → ℕ → Text → Text → Option (List Waiter × Slots)
unfolding par_camp est_tricolore repartir_tricolore deploy_camps sort_by
repartir_par_camp env players seuil seuil_detendu cfg fest_id =
    if ltb seuil 2 || env.soir_flag (codes "festmelange")
    then none
    else let m = par_camp players in
      if est_tricolore env cfg
      then repartir_tricolore env fest_id m
      else deploy_camps (seuil / 2) (sort_by (larger m) (keys m)) m
