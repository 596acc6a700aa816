-- ===== src/Ban/Requests.antt =====
-- ban.go: the calls that look a player up, follow a stream, ban and lift a ban.
pub mod Streams
pub mod Lifted
pub mod Refused
pub mod Standing
pub mod Listed
pub mod Unsaved
use splatoon.Base.{
  ℕ, zero, suc, ◌+◌, Bool, true, false, not, ◌&&◌, ◌||◌, Option, none, some, List, [], ◌∷◌, ◌++◌,
  if◌then◌else◌, ◌==◌, Text, codes, is_empty, text_eq, any, keep, Assoc, insert,
}
use splatoon.Ban.Uid.{clean_ban_uid, valid_ban_uid}
use splatoon.Ban.{
  PlayerBan, TrackedBanStream, BanRegistry, Disk, BanError, invalid_target, ban_entry_key,
  matching_locked, is_found, cancel_current, is_refused, cleaned_entry, refresh, persist_locked,
}

-- The status codes that the calls answer with.
pub data Status : Type 0 where
  unavailable permission_denied unauthenticated other_status : Status

unfoldable pub cleaned_from : List Text → List Text → List Text
unfolding clean_ban_uid
cleaned_from seen [] = []
cleaned_from seen (raw ∷ uids) =
    let uid = clean_ban_uid raw in
    let kept = uid ∷ cleaned_from (uid ∷ seen) uids in
    let skipped = cleaned_from seen uids in
    if not (is_empty uid) && not (any (λ s. text_eq s uid) seen) then kept else skipped

unfoldable pub cleaned_uids : List Text → List Text
unfolding cleaned_from
cleaned_uids uids = cleaned_from [] uids

abbrev pub allowed_after :
    ℕ → List Text → Option BanError × BanRegistry → Option Status × BanRegistry
allowed_after pid uids (some e, r) = (some unavailable, r)
allowed_after pid uids (none, r) =
    (if is_found (matching_locked pid uids r.bans) then some permission_denied else none, r)

-- requireAllowed, with the look-up of `find`.
unfoldable pub require_allowed :
    ℕ → Disk → ℕ → List Text → BanRegistry → Option Status × BanRegistry
unfolding refresh matching_locked
require_allowed now disk pid uids r = allowed_after pid uids (refresh false now disk r)

abbrev pub is_empty_list : List Text → Bool
is_empty_list [] = true
is_empty_list (u ∷ us) = false

abbrev pub follow : ℕ → List Text → Option BanError × BanRegistry → Option Status × BanRegistry
follow pid uids (some e, r) = (some unavailable, r)
follow pid uids (none, r) =
    if is_found (matching_locked pid uids r.bans)
    then (some permission_denied, r)
    else if pid == 0 && is_empty_list uids
    then (none, r)
    else (
      none,
      record r {
        next_stream = suc r.next_stream;
        streams = r.streams ++ record { id = suc r.next_stream; pid = pid; uids = uids } ∷ [];
      },
    )

unfoldable pub track_stream : ℕ → Disk → ℕ → List Text → BanRegistry → Option Status × BanRegistry
unfolding refresh matching_locked cleaned_uids
track_stream now disk pid uids r = follow pid (cleaned_uids uids) (refresh false now disk r)

-- What the function that trackStream returns does when the stream ends.
unfoldable pub remove_stream : ℕ → BanRegistry → BanRegistry
remove_stream id r = record r { streams = keep (λ s. not (s.id == id)) r.streams }

abbrev pub dated : ℕ → PlayerBan → PlayerBan
dated now b = if b.banned_at == 0 then record b { banned_at = now } else b

abbrev and_cancel : Option BanError × BanRegistry → Option BanError × BanRegistry
and_cancel (some e, r) = (some e, r)
and_cancel (none, r) = (none, cancel_current r)

abbrev pub enter :
    ℕ → Option (ℕ × ℕ) → PlayerBan → Option BanError × BanRegistry → Option BanError × BanRegistry
enter now saved e (some error, r) = (some error, r)
enter now saved e (none, r) =
    and_cancel (persist_locked now saved (record r { bans = insert (ban_entry_key e) e r.bans }))

unfoldable pub ban :
    ℕ → Disk → Option (ℕ × ℕ) → PlayerBan → BanRegistry → Option BanError × BanRegistry
unfolding is_refused refresh ban_entry_key cancel_current clean_ban_uid
ban now disk saved entry r =
    if is_refused (cleaned_entry entry)
    then (some invalid_target, r)
    else enter now saved (dated now (cleaned_entry entry)) (refresh true now disk r)

-- The test of the loop of unbanTarget, for a UID that has been cleaned.
unfoldable pub is_target : ℕ → Text → PlayerBan → Bool
unfolding clean_ban_uid
is_target pid uid b =
    (not (pid == 0) && b.pid == pid) || (not (is_empty uid) && text_eq (clean_ban_uid b.uid) uid)

abbrev pub found : Option BanError × BanRegistry → (Option BanError × Bool) × BanRegistry
found (some e, r) = ((some e, false), r)
found (none, r) = ((none, true), r)

abbrev pub lift :
    ℕ
    → Option (ℕ × ℕ)
    → ℕ
    → Text
    → Option BanError × BanRegistry
    → (Option BanError × Bool) × BanRegistry
lift now saved pid uid (some e, r) = ((some e, false), r)
lift now saved pid uid (none, r) =
    let r' = record r { bans = keep (λ e. not (is_target pid uid e.1)) r.bans } in
    let written = found (persist_locked now saved r') in
    if any (λ e. is_target pid uid e.1) r.bans then written else ((none, false), r')

unfoldable pub unban_target :
    ℕ → Disk → Option (ℕ × ℕ) → ℕ → Text → BanRegistry → (Option BanError × Bool) × BanRegistry
unfolding is_target refresh valid_ban_uid clean_ban_uid
unban_target now disk saved pid uid r =
    if pid == 0 && not (valid_ban_uid (clean_ban_uid uid))
    then ((some invalid_target, false), r)
    else lift now saved pid (clean_ban_uid uid) (refresh true now disk r)

unfoldable pub auth_bootstrap_method : Text → Bool
unfolding text_eq
auth_bootstrap_method method =
    any (λ m. text_eq m method)
      (codes "/nn.npln.auth.v1.Auth/CreateUser"
        ∷ codes "/nn.npln.auth.v1.Auth/IssueToken"
        ∷ codes "/nn.npln.auth.v1.Auth/IssuePrearrangedUserToken"
        ∷ codes "/nn.npln.auth.v1.Auth/IssueAnonymousUserToken"
        ∷ codes "/nn.npln.auth.v1.Auth/RefreshToken"
        ∷ codes "/nn.npln.auth.v1.Auth/RefreshAnonymousUserToken"
        ∷ [])

abbrev pub check_account : Option Status → Option Status × BanRegistry → Option Status × BanRegistry
check_account account (some e, r) = (some e, r)
check_account account (none, r) = (account, r)

abbrev pub signed :
    ℕ
    → Disk
    → Option (ℕ × Text)
    → (ℕ → Text → Option Status)
    → BanRegistry
    → Option Status × BanRegistry
signed now disk none validate r = (some unauthenticated, r)
signed now disk (some (pid, uid)) validate r =
    if pid == 0 || not (valid_ban_uid uid)
    then (some unauthenticated, r)
    else check_account (validate pid uid) (require_allowed now disk pid (uid ∷ []) r)

-- requireSignedCaller, for the identity that the caller's signed token gives, if it gives one, and
-- for what the account service says of an identity.
unfoldable pub require_signed_caller :
    ℕ
    → Disk
    → Text
    → Option (ℕ × Text)
    → (ℕ → Text → Option Status)
    → BanRegistry
    → Option Status × BanRegistry
unfolding auth_bootstrap_method require_allowed valid_ban_uid
require_signed_caller now disk method identity validate r =
    if auth_bootstrap_method method then (none, r) else signed now disk identity validate r
