-- ===== src/Matchmaking/Modes.antt =====
-- matchmaking.go: the modes behind the names of matchmaking configurations, and the room capacities.
pub mod Paths
use splatoon.Base.{
  ℕ, suc, ◌+◌, ◌≡◌, refl, Bool, not, ◌&&◌, ◌||◌, Option, none, some, [], ◌++◌, List, ◌∷◌,
  if◌then◌else◌, Text, codes, is_empty, contains, has_prefix, last_index_byte, text_eq, drop, arith,
}

-- What follows the last slash.
unfoldable pub last_seg : Text → Text
unfolding last_index_byte
last_seg name = elim (last_index_byte name b'/') [ some i ↦ drop (i + 1) name | none ↦ name ]

abbrev pub config_sans_nom : Text
config_sans_nom = codes "sans_configuration"

unfoldable pub base_config_name : Text → Text
unfolding last_seg
base_config_name cfg = if is_empty cfg then config_sans_nom else last_seg cfg

unfoldable pub cle_du_mode : Text → Text
unfolding last_seg contains has_prefix
cle_du_mode cfg =
    let c = last_seg cfg in
    if contains c (codes "coop_private")
    then codes "coop_private"
    else if contains c (codes "coop")
    then codes "coop"
    else if contains c (codes "private_match")
    then codes "private"
    else if contains c (codes "bankara") && contains c (codes "challenge")
    then codes "bankara_challenge"
    else if contains c (codes "bankara") && contains c (codes "open")
    then codes "bankara_open"
    else if contains c (codes "bankara")
    then codes "bankara_open"
    else if contains c (codes "fest") && contains c (codes "tricolor")
    then codes "fest_tricolore"
    else if contains c (codes "fest") && contains c (codes "direct_pair")
    then codes "fest_equipe"
    else if contains c (codes "fest") && contains c (codes "challenge")
    then codes "fest_defi"
    else if contains c (codes "fest")
    then codes "fest"
    else if has_prefix c (codes "x_match")
    then codes "x"
    else codes "regular"

unfoldable pub nom_lisible_du_mode : Text → Text
unfolding last_seg contains has_prefix
nom_lisible_du_mode cfg =
    let c = last_seg cfg in
    if contains c (codes "coop_private")
    then codes "Salmon Run (prive)"
    else if contains c (codes "coop")
    then codes "Salmon Run"
    else if contains c (codes "private_match")
    then codes "Match prive"
    else if contains c (codes "bankara") && contains c (codes "challenge")
    then codes "Anarchie (serie)"
    else if contains c (codes "bankara") && contains c (codes "open")
    then codes "Anarchie (ouverte)"
    else if contains c (codes "bankara")
    then codes "Anarchie"
    else if contains c (codes "fest") && contains c (codes "tricolor") && contains c (codes "team")
    then codes "Tricolore (equipe)"
    else if contains c (codes "fest") && contains c (codes "tricolor")
    then codes "Tricolore"
    else if contains c (codes "fest") && contains c (codes "direct_pair")
    then codes "Festival (meme equipe)"
    else if contains c (codes "fest") && contains c (codes "challenge")
    then codes "Festival (defi)"
    else if contains c (codes "fest")
    then codes "Festival (ouvert)"
    else if has_prefix c (codes "x_match")
    then codes "Match X"
    else if contains c (codes "regular")
    then codes "Guerre de territoire"
    else if is_empty c
    then codes "Guerre de territoire"
    else c

unfoldable pub s3_room_capacity : Text → ℕ → ℕ
unfolding contains
s3_room_capacity cfg fallback =
    if contains cfg (codes "coop")
    then 4
    else if contains cfg (codes "private_match")
    then 10
    else if contains cfg (codes "regular")
        || contains cfg (codes "bankara")
        || contains cfg (codes "league")
        || contains cfg (codes "x_match")
        || contains cfg (codes "fest")
    then 8
    else fallback

-- seuilPourConfig and seuilCourantLocked: the nominal target, whatever the wait.
unfoldable pub seuil_pour_config : Text → ℕ → ℕ
unfolding s3_room_capacity
seuil_pour_config cfg defaut = s3_room_capacity cfg defaut

abbrev pub npn_tenant : Text
npn_tenant = codes "tenants/t-dce9377b-lp1"

unfoldable pub is_s3_tenant : Text → Bool
unfolding contains
is_s3_tenant tenant = contains tenant (codes "dce9377b")

unfoldable pub s3_config_echo : Text → Text → Text
unfolding is_s3_tenant last_seg
s3_config_echo tenant cfg =
    if not (is_s3_tenant tenant) || is_empty cfg
    then cfg
    else tenant ++ codes "/matchmakingConfigs/" ++ last_seg cfg

fest_defi_full : s3_room_capacity (codes "fest_match_challenge_oneshot_config") 2 ≡ 8
unfolding s3_room_capacity
fest_defi_full = refl
