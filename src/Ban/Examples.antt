-- ===== src/Ban/Examples.antt =====
-- ban.go: the theorems at a concrete register.
use splatoon.Base.{
  ℕ, ◌≡◌, refl, true, false, Option, none, some, List, [], ◌∷◌, Text, codes, text_eq, has_prefix,
  last_index_byte, Perm, AllPairs,
}
use splatoon.Ban.Uid.{valid_ban_uid}
use splatoon.Ban.{
  PlayerBan, BanRegistry, Disk, absent, present, unreadable, malformed, matches, cleaned_entry,
  is_refused, refresh, refresh_from, values, listed,
}
use splatoon.Ban.Requests.{
  Status, permission_denied, ban, require_allowed, track_stream, unban_target,
  auth_bootstrap_method, require_signed_caller,
}
use splatoon.Ban.Requests.Streams.{
  new_ban_registry, Watched, fresh, and_then, followed, banned, Calls-Watched,
}
use splatoon.Ban.Requests.Refused.{Allowed, require_signed_caller-Allowed}
use splatoon.Ban.Requests.Standing.{
  Consultation, allowed, followed as suivi, ended, consult_all, require_allowed-ban,
}
use splatoon.Ban.Requests.Lifted.{Lifted, unban_target-Lifted}
use splatoon.Ban.Requests.Listed.{InOrder, listed-IsSorted}
use splatoon.Ban.Requests.Unsaved.{ban-Unsaved}
use splatoon.Ban.{cannot_persist}

abbrev cheater : PlayerBan
cheater = record { pid = 42; uid = codes "u-42"; reason = codes "cheat"; banned_at = 0 }

abbrev other : PlayerBan
other = record { pid = 7; uid = []; reason = []; banned_at = 5 }

abbrev no_file : Disk
no_file = record { stat = absent; content = unreadable }

abbrev saved_file : Disk
saved_file = record { stat = present 9000 120; content = malformed }

banned_ok : (ban 5000 no_file (some (9000, 120)) cheater new_ban_registry).0 ≡ none
unfolding ban refresh_from is_refused valid_ban_uid has_prefix last_index_byte
banned_ok = refl

cheater_met : matches (cleaned_entry cheater) 42 [] ≡ true
unfolding matches
cheater_met = refl

-- Another player is looked up, opens a stream, and ends it.
abbrev entre : List Consultation
entre = allowed 5600 saved_file 7 [] ∷ suivi 7000 saved_file 8 (codes "u-8" ∷ []) ∷ ended 1 ∷ []

require_allowed-ban_example :
    (require_allowed 9999 saved_file 42 []
      (consult_all entre (ban 5000 no_file (some (9000, 120)) cheater new_ban_registry).1)).0
    ≡ some permission_denied
require_allowed-ban_example =
    require_allowed-ban 5000 no_file 9000 120 cheater new_ban_registry entre 9999 saved_file 42 []
      banned_ok (refl, (refl, (tt, tt))) refl cheater_met

no_bootstrap : auth_bootstrap_method (codes "/nn.npln.matchmaking.v1.Matchmaker/Create") ≡ false
unfolding auth_bootstrap_method text_eq
no_bootstrap = refl

abbrev account_ok : ℕ → Text → Option Status
account_ok pid uid = none

passes :
    (require_signed_caller 5000 no_file
      (codes "/nn.npln.matchmaking.v1.Matchmaker/Create")
      (some (7, codes "u-7"))
      account_ok
      new_ban_registry).0
    ≡ none
unfolding require_signed_caller require_allowed refresh_from valid_ban_uid has_prefix
    last_index_byte text_eq
passes = refl

require_signed_caller-Allowed_example :
    Allowed
      (some (7, codes "u-7"))
      account_ok
      (require_signed_caller 5000 no_file
        (codes "/nn.npln.matchmaking.v1.Matchmaker/Create")
        (some (7, codes "u-7"))
        account_ok
        new_ban_registry).1
require_signed_caller-Allowed_example =
    require_signed_caller-Allowed 5000 no_file (codes "/nn.npln.matchmaking.v1.Matchmaker/Create")
      (some (7, codes "u-7")) account_ok new_ban_registry no_bootstrap passes

abbrev registry : BanRegistry
registry = record new_ban_registry {
  bans = (codes "pid:42", cheater) ∷ (codes "pid:7", other) ∷ [];
  loaded = true;
  file_exists = true;
  file_mod_time = 9000;
  file_size = 120;
}

lifted_ok : (unban_target 6000 saved_file (some (9100, 80)) 42 [] registry).0.0 ≡ none
unfolding unban_target refresh refresh_from
lifted_ok = refl

unban_target-Lifted_example :
    Lifted 42 []
      (refresh true 6000 saved_file registry).1.bans
      (unban_target 6000 saved_file (some (9100, 80)) 42 [] registry).1.bans
unban_target-Lifted_example =
    unban_target-Lifted 6000 saved_file (some (9100, 80)) 42 [] registry lifted_ok

listed-IsSorted_example :
    AllPairs InOrder (listed registry.bans) × Perm (listed registry.bans) (values registry.bans)
listed-IsSorted_example = listed-IsSorted registry.bans

Calls-Watched_example :
    Watched
      (ban 5000 no_file
        (some (9000, 120))
        cheater
        (track_stream 4000 no_file 42 (codes "u-42" ∷ []) new_ban_registry).1).1
Calls-Watched_example = Calls-Watched (
    and_then (and_then fresh (followed 4000 no_file 42 (codes "u-42" ∷ [])))
      (banned 5000 no_file 9000 120 cheater))

cheater_accepted : is_refused (cleaned_entry cheater) ≡ false
unfolding is_refused valid_ban_uid has_prefix last_index_byte
cheater_accepted = refl

-- The register before the ban: another player only.
abbrev avant : BanRegistry
avant = record registry { bans = (codes "pid:7", other) ∷ [] }

file_read : (refresh true 5000 saved_file avant).0 ≡ none
unfolding refresh refresh_from
file_read = refl

ban-Unsaved_example :
    ((ban 5000 saved_file none cheater avant).0 ≡ some cannot_persist)
    × ((require_allowed 9999 saved_file 42 []
          (consult_all entre (ban 5000 saved_file none cheater avant).1)).0
        ≡ some permission_denied)
ban-Unsaved_example =
    ban-Unsaved 5000 9000 120 saved_file cheater avant entre 9999 saved_file 42 [] cheater_accepted
      refl file_read (refl, (refl, (tt, tt))) refl cheater_met
