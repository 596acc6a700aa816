-- ===== src/Ban/Requests/Unsaved.antt =====
-- ban.go: a ban whose file cannot be written.
use splatoon.Base.{
  All, ℕ, ◌≡◌, ◌∙◌, refl, true, false, ◌&&◌, ◌==◌, Bool-cases, inl, inr, Option, none, some, List,
  Text, arith,
}
use splatoon.Ban.{
  PlayerBan, BanRegistry, Disk, Content, unreadable, malformed, decoded, present, BanError,
  cannot_persist, ban_entry_key, matches, is_refused, cleaned_entry, cancel_current, load_entries,
  loaded_as, reload, refresh, refresh_from,
}
use splatoon.Ban.Requests.{permission_denied, require_allowed, dated, enter, ban}
use splatoon.Ban.Requests.Refused.{insert-found, matches-dated}
use splatoon.Ban.Requests.Standing.{
  Banned, require_allowed-Banned, Consultation, consult_all, SeesFile, consult_all-Banned,
}

-- The register takes the file to be the one of these times and size.
record Read (t n : ℕ) (r : BanRegistry) : Type 0 where
  loaded : r.loaded ≡ true
  file_exists : r.file_exists ≡ true
  mod_time : r.file_mod_time ≡ t
  size : r.file_size ≡ n

loaded_as-Read :
    (t n : ℕ) (r : BanRegistry) (next : Option (_))
    → (loaded_as t n r next).0 ≡ none
    → Read t n (loaded_as t n r next).1
unfolding loaded_as cancel_current
loaded_as-Read t n r none h = absurd (cc)
loaded_as-Read t n r (some next) h = record {
  loaded = refl;
  file_exists = refl;
  mod_time = refl;
  size = refl;
}

reload-Read :
    (c : Content) (t n : ℕ) (r : BanRegistry)
    → (reload c t n r).0 ≡ none
    → Read t n (reload c t n r).1
unfolding reload
reload-Read unreadable t n r h = absurd (cc)
reload-Read malformed t n r h = absurd (cc)
reload-Read (decoded entries) t n r h = loaded_as-Read t n r (load_entries entries _) h

refresh_from-Read :
    (t n : ℕ) (c : Content) (r : BanRegistry)
    → (refresh_from (present t n) c r).0 ≡ none
    → Read t n (refresh_from (present t n) c r).1
unfolding refresh_from
refresh_from-Read t n c r h =
    elim (Bool-cases (r.loaded && r.file_exists && t == r.file_mod_time && n == r.file_size)) [
      | inl same ↦ rw same (record {
        loaded = ground arith;
        file_exists = ground arith;
        mod_time = ground arith;
        size = ground arith;
      })
      | inr other ↦ rw other (reload-Read c t n r (rw other at h))
    ]

-- A refresh that succeeds on a file leaves the register with that file.
refresh-Read :
    (now t n : ℕ) (disk : Disk) (r : BanRegistry)
    → disk.stat ≡ present t n
    → (refresh true now disk r).0 ≡ none
    → Read t n (refresh true now disk r).1
unfolding refresh
refresh-Read now t n disk r e h =
    rw e (refresh_from-Read t n disk.content (record r { last_check = now }) (rw e at h))

enter-Unsaved :
    (now t n : ℕ) (e : PlayerBan) (x : Option BanError × BanRegistry)
    → x.0 ≡ none
    → Read t n x.1
    → ((enter now none e x).0 ≡ some cannot_persist) × Banned e t n (enter now none e x).1
enter-Unsaved now t n e (some error, r) h read = absurd (cc)
enter-Unsaved now t n e (none, r) h read = (
  refl,
  record {
    met = λ pid uids m. insert-found (ban_entry_key e) e r.bans pid uids m;
    loaded = read.loaded;
    file_exists = read.file_exists;
    mod_time = read.mod_time;
    size = read.size;
  },
)

-- When the entry of a ban is accepted and the file, which is there, is refreshed from but cannot be
-- written, ban returns an error, and yet the ban holds: when only look-ups, streams that begin and
-- streams that end have come since, and the file still has its time and its size each time,
-- requireAllowed answers PermissionDenied to every PID and list of UIDs that the entry matches.
pub ban-Unsaved :
    (now t n : ℕ) (disk : Disk) (entry : PlayerBan) (r : BanRegistry) (cs : List Consultation)
    (now' : ℕ) (disk' : Disk) (pid : ℕ) (uids : List Text)
    → is_refused (cleaned_entry entry) ≡ false
    → disk.stat ≡ present t n
    → (refresh true now disk r).0 ≡ none
    → All (SeesFile t n) cs
    → disk'.stat ≡ present t n
    → matches (cleaned_entry entry) pid uids ≡ true
    → ((ban now disk none entry r).0 ≡ some cannot_persist)
      × ((require_allowed now' disk' pid uids (consult_all cs (ban now disk none entry r).1)).0
          ≡ some permission_denied)
unfolding ban
ban-Unsaved now t n disk entry r cs now' disk' pid uids good stat ok seen stat' m =
    let e = dated now (cleaned_entry entry) in
    let x = refresh true now disk r in
    let (failed, banned) = enter-Unsaved now t n e x ok (refresh-Read now t n disk r stat ok) in
    rw good (
      failed,
      require_allowed-Banned e t n (consult_all cs (enter now none e x).1) now' disk' pid uids
          (consult_all-Banned e t n cs (enter now none e x).1 seen banned) stat'
          (matches-dated now (cleaned_entry entry) pid uids ∙ m),
    )
