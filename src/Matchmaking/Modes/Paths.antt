-- ===== src/Matchmaking/Modes/Paths.antt =====
-- matchmaking.go: the names of modes and the paths that hold them.
use splatoon.Base.{
  ℕ, suc, ◌+◌, ◌/◌, ◌≡◌, refl, true, false, none, some, [], ◌∷◌, ◌++◌, Text, codes, is_empty,
  contains, has_prefix, last_index_byte, drop, length, arith, inl, inr, Option-cases,
}
use native.Mathlib.Numerals.{add-one}
use splatoon.Matchmaking.Modes.{
  last_seg, base_config_name, s3_room_capacity, s3_config_echo, npn_tenant,
}

-- tenants/t-dce9377b-lp1/matchmakingConfigs/<x>
abbrev pub config_path : Text → Text
config_path x = npn_tenant ++ (codes "/matchmakingConfigs/" ++ x)

-- A segment has no slash.
abbrev pub IsSegment : Text → Type 0
IsSegment x = last_index_byte x b'/' ≡ none

pub base_config_name-config_path : (x : Text) → IsSegment x → base_config_name (config_path x) ≡ x
unfolding base_config_name last_index_byte
base_config_name-config_path x h = rw (h, last_index_byte)

pub last_seg-segment : (x : Text) → IsSegment x → last_seg x ≡ x
unfolding last_seg
last_seg-segment x h = rw (h, last_seg)

pub s3_room_capacity-config_path :
    (x : Text) (n : ℕ) → s3_room_capacity (config_path x) n ≡ s3_room_capacity x n
unfolding s3_room_capacity contains has_prefix
s3_room_capacity-config_path x n = refl

-- A capacity that is the number of players present is the capacity for that number of players.
pub s3_room_capacity_idem :
    (x : Text) (m n : ℕ) → n ≡ s3_room_capacity x m → s3_room_capacity x n ≡ n
unfolding s3_room_capacity
s3_room_capacity_idem x m n h = ground arith

-- The queues of a Splatfest have even targets.
pub fest_even :
    (x : Text) (m : ℕ)
    → contains x (codes "fest") ≡ true
    → (let c = s3_room_capacity x m in c / 2 + c / 2) ≡ s3_room_capacity x m
unfolding s3_room_capacity
fest_even x m h = ground arith

tail-IsSegment : (s : Text) (i : ℕ) → last_index_byte s b'/' ≡ some i → IsSegment (drop (suc i) s)
unfolding last_index_byte
tail-IsSegment [] i h = cc
tail-IsSegment (c ∷ s) i h = elim (Option-cases (last_index_byte s b'/')) [
  | inl e ↦ let z : i ≡ 0 = ground arith in rw z e
  | inr (j, e) ↦ let z : i ≡ suc j = ground arith in rw z (tail-IsSegment s j e)
]

pub last_seg-IsSegment : (name : Text) → IsSegment (last_seg name)
unfolding last_seg
last_seg-IsSegment name = elim (Option-cases (last_index_byte name b'/')) [
  | inl e ↦ rw (e, last_seg) e
  | inr (i, e) ↦ rw (e, last_seg, add-one) (tail-IsSegment name i e)
]

last_index_byte-append :
    (p x : Text) → IsSegment x → last_index_byte (p ++ b'/' ∷ x) b'/' ≡ some (length p)
unfolding last_index_byte
last_index_byte-append [] x h = rw h refl
last_index_byte-append (c ∷ p) x h = rw (last_index_byte-append p x h) refl

drop-past : (p x : Text) → drop (suc (length p)) (p ++ b'/' ∷ x) ≡ x
drop-past [] x = refl
drop-past (c ∷ p) x = drop-past p x

-- The last segment of a path that ends in one.
pub last_seg-append : (p x : Text) → IsSegment x → last_seg (p ++ b'/' ∷ x) ≡ x
unfolding last_seg
last_seg-append p x h = rw (last_seg, last_index_byte-append p x h, add-one) (drop-past p x)

-- What the server stores for a requested configuration is the path of its last segment.
pub s3_config_echo-config_path :
    (cfg : Text) → is_empty cfg ≡ false → s3_config_echo npn_tenant cfg ≡ config_path (last_seg cfg)
unfolding s3_config_echo contains has_prefix
s3_config_echo-config_path cfg h = rw h
