-- ===== src/Ban.antt =====
-- ban.go: the register of the banned players, the streams that it watches over, and the check that
-- every call passes. The command line (runBanCLI) is left out, but for the target that it reads.
pub mod Uid
pub mod Requests
pub mod Examples
use splatoon.Base.{
  ℕ, zero, suc, ◌+◌, ◌-◌, Bool, true, false, not, ◌&&◌, ◌||◌, Option, none, some, List, [], ◌∷◌,
  ◌++◌, map, if◌then◌else◌, ltb, ◌==◌, Text, codes, is_empty, text_eq, text_lt, any, keep, Assoc,
  lookup, insert, sort_by,
}
use splatoon.Ban.Uid.{clean_ban_uid, valid_ban_uid, format_uint}

-- Times in milliseconds; 0 is Go's zero time.
pub record PlayerBan : Type 0 where
  pub pid : ℕ
  pub uid : Text
  pub reason : Text
  pub banned_at : ℕ

-- `id` is the key of the stream in the map, and stands for its cancel function.
pub record TrackedBanStream : Type 0 where
  pub id : ℕ
  pub pid : ℕ
  pub uids : List Text

-- `cancelled` lists the streams whose cancel function has been called.
pub record BanRegistry : Type 0 where
  pub bans : Assoc PlayerBan
  pub streams : List TrackedBanStream
  pub next_stream : ℕ
  pub loaded : Bool
  pub file_exists : Bool
  pub file_mod_time : ℕ
  pub file_size : ℕ
  pub last_check : ℕ
  pub cancelled : List ℕ

-- What os.Stat says of the file, and what reading and decoding it gives.
pub data Stat : Type 0 where
  absent stat_failed : Stat
  present : ℕ → ℕ → Stat

pub data Content : Type 0 where
  unreadable malformed : Content
  decoded : List PlayerBan → Content

pub record Disk : Type 0 where
  pub stat : Stat
  pub content : Content

pub data BanError : Type 0 where
  cannot_stat cannot_read cannot_parse invalid_entry invalid_target cannot_persist : BanError

unfoldable pub ban_entry_key : PlayerBan → Text
unfolding clean_ban_uid format_uint
ban_entry_key b =
    if not (b.pid == 0)
    then codes "pid:" ++ format_uint b.pid
    else codes "uid:" ++ clean_ban_uid b.uid

unfoldable pub matches : PlayerBan → ℕ → List Text → Bool
unfolding clean_ban_uid
matches b pid uids =
    if not (pid == 0) && b.pid == pid
    then true
    else if is_empty (clean_ban_uid b.uid)
    then false
    else any (λ uid. text_eq (clean_ban_uid uid) (clean_ban_uid b.uid)) uids

unfoldable pub matching_locked : ℕ → List Text → Assoc PlayerBan → Option PlayerBan
unfolding matches
matching_locked pid uids [] = none
matching_locked pid uids (e ∷ m) =
    if matches e.1 pid uids then some e.1 else matching_locked pid uids m

abbrev pub is_found : Option PlayerBan → Bool
is_found none = false
is_found (some b) = true

-- cancellationsForCurrentBansLocked, and the calls that its callers make.
unfoldable pub cancel_current : BanRegistry → BanRegistry
unfolding matching_locked
cancel_current r =
    let hit = λ (s : TrackedBanStream). is_found (matching_locked s.pid s.uids r.bans) in
    record r {
      streams = keep (λ s. not (hit s)) r.streams;
      cancelled = r.cancelled ++ map (λ s. s.id) (keep hit r.streams);
    }

-- What both `refresh` and `ban` refuse, after the entry's UID has been cleaned.
unfoldable pub is_refused : PlayerBan → Bool
unfolding valid_ban_uid
is_refused b =
    (b.pid == 0 && not (valid_ban_uid b.uid)) || (not (is_empty b.uid) && not (valid_ban_uid b.uid))

abbrev pub cleaned_entry : PlayerBan → PlayerBan
cleaned_entry b = record b { uid = clean_ban_uid b.uid }

unfoldable pub load_entries : List PlayerBan → Assoc PlayerBan → Option (Assoc PlayerBan)
unfolding is_refused ban_entry_key clean_ban_uid
load_entries [] next = some next
load_entries (b ∷ bs) next =
    let e = cleaned_entry b in
    let rest = load_entries bs (insert (ban_entry_key e) e next) in
    if is_refused e then none else rest

unfoldable pub loaded_as :
    ℕ → ℕ → BanRegistry → Option (Assoc PlayerBan) → Option BanError × BanRegistry
unfolding cancel_current
loaded_as mod_time size r none = (some invalid_entry, r)
loaded_as mod_time size r (some next) = (
  none,
  cancel_current (record r {
    bans = next;
    loaded = true;
    file_exists = true;
    file_mod_time = mod_time;
    file_size = size;
  }),
)

unfoldable pub reload : Content → ℕ → ℕ → BanRegistry → Option BanError × BanRegistry
unfolding load_entries loaded_as
reload unreadable mod_time size r = (some cannot_read, r)
reload malformed mod_time size r = (some cannot_parse, r)
reload (decoded entries) mod_time size r = loaded_as mod_time size r (load_entries entries [])

abbrev pub unloaded : BanRegistry → BanRegistry
unloaded r = record r {
  bans = [];
  loaded = true;
  file_exists = false;
  file_mod_time = 0;
  file_size = 0;
}

unfoldable pub refresh_from : Stat → Content → BanRegistry → Option BanError × BanRegistry
unfolding reload
refresh_from absent content r = (none, if r.file_exists || not r.loaded then unloaded r else r)
refresh_from stat_failed content r = (some cannot_stat, r)
refresh_from (present mod_time size) content r =
    let again = reload content mod_time size r in
    if r.loaded && r.file_exists && mod_time == r.file_mod_time && size == r.file_size
    then (none, r)
    else again

unfoldable pub refresh : Bool → ℕ → Disk → BanRegistry → Option BanError × BanRegistry
unfolding refresh_from
refresh force now disk r =
    if not force && ltb (now - r.last_check) 250
    then (none, r)
    else refresh_from disk.stat disk.content (record r { last_check = now })

abbrev pub values : Assoc PlayerBan → List PlayerBan
values = map (λ e. e.1)

abbrev pub before_ban : PlayerBan → PlayerBan → Bool
before_ban a b = ltb a.pid b.pid || (a.pid == b.pid && text_lt a.uid b.uid)

-- The entries that persistLocked writes, and that `list` gives.
unfoldable pub listed : Assoc PlayerBan → List PlayerBan
unfolding sort_by text_lt
listed m = sort_by before_ban (values m)

-- persistLocked, where `saved` says whether every step of the writing succeeds, and the times and
-- the size of the file that stands there then.
abbrev pub persist_locked : ℕ → Option (ℕ × ℕ) → BanRegistry → Option BanError × BanRegistry
persist_locked now none r = (some cannot_persist, r)
persist_locked now (some (mod_time, size)) r = (
  none,
  record r {
    loaded = true;
    file_exists = true;
    file_mod_time = mod_time;
    file_size = size;
    last_check = now;
  },
)
