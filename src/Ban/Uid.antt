-- ===== src/Ban/Uid.antt =====
-- ban.go: the user UIDs and the targets that an operator writes.
use splatoon.Base.{
  ℕ, zero, suc, ◌+◌, ◌-◌, ◌*◌, ◌/◌, ◌%◌, ◌^◌, Bool, true, not, ◌&&◌, ◌||◌, Option, none, some, [],
  ◌∷◌, ◌++◌, if◌then◌else◌, ltb, leb, ◌==◌, Text, codes, is_empty, has_prefix, last_index_byte,
  trim_space, length, take, drop,
}
use mathlib.Core.List.{reverse}

-- strings.TrimSuffix
unfoldable pub trim_suffix : Text → Text → Text
unfolding has_prefix
trim_suffix s p = if has_prefix (reverse s) (reverse p) then take (length s - length p) s else s

unfoldable pub clean_ban_uid : Text → Text
unfolding trim_space last_index_byte trim_suffix has_prefix
clean_ban_uid raw =
    let t = trim_space raw in
    let seg : Text = elim (last_index_byte t b'/') [ some i ↦ drop (i + 1) t | none ↦ t ] in
    let u = trim_suffix (trim_suffix seg (codes ".record.pb")) (codes ".save") in
    if not (is_empty u) && not (has_prefix u (codes "u-")) then codes "u-" ++ u else u

abbrev is_digit : ℕ → Bool
is_digit c = leb 48 c && leb c 57

abbrev is_uid_byte : ℕ → Bool
is_uid_byte r =
    (leb 97 r && leb r 122) || (leb 65 r && leb r 90) || is_digit r || r == 45 || r == 95

abbrev every : (ℕ → Bool) → Text → Bool
every p [] = true
every p (c ∷ s) = p c && every p s

unfoldable pub valid_ban_uid : Text → Bool
unfolding clean_ban_uid
valid_ban_uid raw =
    let uid = clean_ban_uid raw in
    not (length uid == 0 || ltb 128 (length uid)) && every is_uid_byte uid

-- strconv.FormatUint in base 10: a uint64 has at most twenty digits.
digits_from : ℕ → ℕ → Text → Text
digits_from zero n acc = acc
digits_from (suc fuel) n acc =
    let more = digits_from fuel (n / 10) ((48 + n % 10) ∷ acc) in
    if ltb n 10 then (48 + n) ∷ acc else more

unfoldable pub format_uint : ℕ → Text
unfolding digits_from
format_uint n = digits_from 20 n []

-- strconv.ParseUint in base 10, for 64 bits.
number_from : ℕ → Text → ℕ
number_from acc [] = acc
number_from acc (c ∷ s) = number_from (acc * 10 + (c - 48)) s

unfoldable pub parse_uint : Text → Option ℕ
unfolding number_from
parse_uint s =
    if is_empty s || not (every is_digit s)
    then none
    else if ltb (number_from 0 s) (2 ^ 64)
    then some (number_from 0 s)
    else none

-- parseBanTarget: a PID or a UID, or `none` for an error.
unfoldable pub parse_ban_target : Text → Option (ℕ × Text)
unfolding parse_uint trim_space clean_ban_uid valid_ban_uid
parse_ban_target raw = elim (parse_uint (trim_space raw)) [
  | some pid ↦ if pid == 0 then none else some (pid, [])
  | none ↦
      if every is_digit raw
      then none
      else if not (valid_ban_uid (clean_ban_uid raw))
      then none
      else some (0, clean_ban_uid raw)
]
