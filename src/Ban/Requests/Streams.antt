-- ===== src/Ban/Requests/Streams.antt =====
-- ban.go: the streams that are followed, through the calls of the register.
use splatoon.Base.{
  ℕ, ◌≡◌, refl, Bool, true, false, not, ◌&&◌, ◌||◌, inl, inr, Option, none, some, List, [], ◌∷◌,
  if◌then◌else◌, ◌==◌, ltb, ◌-◌, Text, any, keep, keep-passes, All, All-append, All-always,
  All-keep, All-map, Assoc, insert, Bool-cases, arith,
}
use splatoon.Ban.Uid.{clean_ban_uid, valid_ban_uid}
use splatoon.Ban.{
  PlayerBan, TrackedBanStream, BanRegistry, Disk, Content, decoded, unreadable, malformed, Stat,
  absent, stat_failed, present, BanError, matches, matching_locked, is_found, load_entries,
  loaded_as, unloaded, invalid_target, cancel_current, refresh, refresh_from, reload,
  persist_locked, is_refused, cleaned_entry, ban_entry_key,
}
use splatoon.Ban.Requests.{
  is_empty_list, follow, track_stream, remove_stream, enter, ban, is_target, lift, found,
  unban_target, cleaned_uids, dated, is_target,
}

-- None of the streams matches a ban.
abbrev pub Watched : BanRegistry → Type 0
Watched r =
    All (λ (s : TrackedBanStream). is_found (matching_locked s.pid s.uids r.bans) ≡ false) r.streams

cancel_current-Watched : (r : BanRegistry) → Watched (cancel_current r)
unfolding cancel_current
cancel_current-Watched r =
    let hit = λ (s : TrackedBanStream). is_found (matching_locked s.pid s.uids r.bans) in
    All-map _ (λ s. hit s ≡ false) (λ s h. ground arith) _
      (keep-passes (λ s. not (hit s)) r.streams)

loaded_as-Watched :
    (t n : ℕ) (r : BanRegistry) (o : Option (Assoc PlayerBan))
    → Watched r
    → Watched (loaded_as t n r o).1
unfolding loaded_as
loaded_as-Watched t n r none w = w
loaded_as-Watched t n r (some next) w =
    cancel_current-Watched (record r {
      bans = next;
      loaded = true;
      file_exists = true;
      file_mod_time = t;
      file_size = n;
    })

reload-Watched :
    (content : Content) (t n : ℕ) (r : BanRegistry) → Watched r → Watched (reload content t n r).1
unfolding reload
reload-Watched unreadable t n r w = w
reload-Watched malformed t n r w = w
reload-Watched (decoded entries) t n r w = loaded_as-Watched t n r (load_entries entries []) w

unloaded-Watched : (r : BanRegistry) → Watched (unloaded r)
unfolding matching_locked
unloaded-Watched r = All-always _ r.streams (λ s. refl)

one_of : (b : Bool) (r r' : BanRegistry) → Watched r → Watched r' → Watched (if b then r else r')
one_of true r r' w w' = w
one_of false r r' w w' = w'

one_result :
    (b : Bool) (x y : Option BanError × BanRegistry)
    → Watched x.1
    → Watched y.1
    → Watched (if b then x else y).1
one_result true x y w w' = w
one_result false x y w w' = w'

refresh_from-Watched :
    (stat : Stat) (content : Content) (r : BanRegistry)
    → Watched r
    → Watched (refresh_from stat content r).1
unfolding refresh_from
refresh_from-Watched absent content r w =
    one_of (r.file_exists || not r.loaded) (unloaded r) r (unloaded-Watched r) w
refresh_from-Watched stat_failed content r w = w
refresh_from-Watched (present t n) content r w =
    one_result (r.loaded && r.file_exists && t == r.file_mod_time && n == r.file_size) (none, r)
      (reload content t n r) w (reload-Watched content t n r w)

pub refresh-Watched :
    (force : Bool) (now : ℕ) (disk : Disk) (r : BanRegistry)
    → Watched r
    → Watched (refresh force now disk r).1
unfolding refresh
refresh-Watched force now disk r w =
    one_result (not force && ltb (now - r.last_check) 250) (none, r) _ w
      (refresh_from-Watched disk.stat disk.content (record r { last_check = now }) w)

follow-Watched :
    (pid : ℕ) (uids : List Text) (x : Option BanError × BanRegistry)
    → Watched x.1
    → Watched (follow pid uids x).1
follow-Watched pid uids (some e, r) w = w
follow-Watched pid uids (none, r) w =
    elim (Bool-cases (is_found (matching_locked pid uids r.bans))) [
      | inl hit ↦ rw hit w
      | inr free ↦ elim (Bool-cases (pid == 0 && is_empty_list uids)) [
        | inl nobody ↦ rw (free, nobody) w
        | inr named ↦ rw (free, named) (All-append _ r.streams _ w (free, tt))
      ]
    ]

track_stream-Watched :
    (now : ℕ) (disk : Disk) (pid : ℕ) (uids : List Text) (r : BanRegistry)
    → Watched r
    → Watched (track_stream now disk pid uids r).1
unfolding track_stream
track_stream-Watched now disk pid uids r w =
    follow-Watched pid (cleaned_uids uids) (refresh false now disk r)
      (refresh-Watched false now disk r w)

enter-Watched :
    (now t n : ℕ) (e : PlayerBan) (x : Option BanError × BanRegistry)
    → Watched x.1
    → Watched (enter now (some (t, n)) e x).1
enter-Watched now t n e (some error, r) w = w
enter-Watched now t n e (none, r) w = cancel_current-Watched (record r {
  bans = insert (ban_entry_key e) e r.bans;
  loaded = true;
  file_exists = true;
  file_mod_time = t;
  file_size = n;
  last_check = now;
})

ban-Watched :
    (now : ℕ) (disk : Disk) (t n : ℕ) (entry : PlayerBan) (r : BanRegistry)
    → Watched r
    → Watched (ban now disk (some (t, n)) entry r).1
unfolding ban
ban-Watched now disk t n entry r w =
    one_result (is_refused (cleaned_entry entry)) (some invalid_target, r) _ w
      (enter-Watched now t n (dated now (cleaned_entry entry)) (refresh true now disk r)
        (refresh-Watched true now disk r w))

fewer :
    (p : Text × PlayerBan → Bool) (pid : ℕ) (uids : List Text) (m : Assoc PlayerBan)
    → is_found (matching_locked pid uids m) ≡ false
    → is_found (matching_locked pid uids (keep p m)) ≡ false
unfolding matching_locked
fewer p pid uids [] h = h
fewer p pid uids (e ∷ m) h = elim (Bool-cases (matches e.1 pid uids)) [
  | inl hit ↦
      let g : is_found (matching_locked pid uids (e ∷ m)) ≡ true = rw hit in absurd (cc (g, h))
  | inr free ↦ elim (Bool-cases (p e)) [
    | inl k ↦ rw (k, keep, free) (fewer p pid uids m (rw free at h))
    | inr k ↦ rw (k, keep) (fewer p pid uids m (rw free at h))
  ]
]

same_registry :
    (b : Bool) (now : ℕ) (saved : Option (ℕ × ℕ)) (r : BanRegistry)
    → Watched r
    → Watched (if b then found (persist_locked now saved r) else ((none, false), r)).1
same_registry false now saved r w = w
same_registry true now none r w = w
same_registry true now (some (t, n)) r w = w

lift-Watched :
    (now : ℕ) (saved : Option (ℕ × ℕ)) (pid : ℕ) (uid : Text) (x : Option BanError × BanRegistry)
    → Watched x.1
    → Watched (lift now saved pid uid x).1
lift-Watched now saved pid uid (some e, r) w = w
lift-Watched now saved pid uid (none, r) w =
    let p = λ (e : Text × PlayerBan). not (is_target pid uid e.1) in
    same_registry (any (λ e. is_target pid uid e.1) r.bans) now saved
      (record r { bans = keep p r.bans })
      (All-map _ _ (λ (s : TrackedBanStream) h. fewer p s.pid s.uids r.bans h) r.streams w)

unless-Watched :
    (b : Bool) (r : BanRegistry) (y : (Option BanError × Bool) × BanRegistry)
    → Watched r
    → Watched y.1
    → Watched (if b then ((some invalid_target, false), r) else y).1
unless-Watched true r y w w' = w
unless-Watched false r y w w' = w'

unban_target-Watched :
    (now : ℕ) (disk : Disk) (saved : Option (ℕ × ℕ)) (pid : ℕ) (uid : Text) (r : BanRegistry)
    → Watched r
    → Watched (unban_target now disk saved pid uid r).1
unfolding unban_target
unban_target-Watched now disk saved pid uid r w =
    unless-Watched (pid == 0 && not (valid_ban_uid (clean_ban_uid uid))) r _ w (
      lift-Watched now saved pid (clean_ban_uid uid) (refresh true now disk r)
        (refresh-Watched true now disk r w))

remove_stream-Watched : (id : ℕ) (r : BanRegistry) → Watched r → Watched (remove_stream id r)
unfolding remove_stream
remove_stream-Watched id r w = All-keep _ (λ s. not (s.id == id)) r.streams w

-- newBanRegistry
abbrev pub new_ban_registry : BanRegistry
new_ban_registry = record {
  bans = [];
  streams = [];
  next_stream = 0;
  loaded = false;
  file_exists = false;
  file_mod_time = 0;
  file_size = 0;
  last_check = 0;
  cancelled = [];
}

-- The calls of the register, each with the file as it stands then; a ban whose file cannot be written
-- is not among them.
pub data Call : BanRegistry → BanRegistry → Type 0 where
  refreshed :
      (force : Bool) (now : ℕ) (disk : Disk) {r : BanRegistry} → Call r (refresh force now disk r).1
  followed :
      (now : ℕ) (disk : Disk) (pid : ℕ) (uids : List Text) {r : BanRegistry}
      → Call r (track_stream now disk pid uids r).1
  ended : (id : ℕ) {r : BanRegistry} → Call r (remove_stream id r)
  banned :
      (now : ℕ) (disk : Disk) (t n : ℕ) (entry : PlayerBan) {r : BanRegistry}
      → Call r (ban now disk (some (t, n)) entry r).1
  lifted :
      (now : ℕ) (disk : Disk) (saved : Option (ℕ × ℕ)) (pid : ℕ) (uid : Text) {r : BanRegistry}
      → Call r (unban_target now disk saved pid uid r).1

pub data Calls : BanRegistry → Type 0 where
  fresh : Calls new_ban_registry
  and_then : {r r' : BanRegistry} → Calls r → Call r r' → Calls r'

Call-Watched : {r r' : BanRegistry} → Call r r' → Watched r → Watched r'
Call-Watched {r = r} (refreshed force now disk) w = refresh-Watched force now disk r w
Call-Watched {r = r} (followed now disk pid uids) w = track_stream-Watched now disk pid uids r w
Call-Watched {r = r} (ended id) w = remove_stream-Watched id r w
Call-Watched {r = r} (banned now disk t n entry) w = ban-Watched now disk t n entry r w
Call-Watched {r = r} (lifted now disk saved pid uid) w =
    unban_target-Watched now disk saved pid uid r w

-- Whatever calls are made, in whatever order, starting from an empty register, as long as every ban
-- that is made can be written to the file: no stream that is followed matches a ban.
pub Calls-Watched : {r : BanRegistry} → Calls r → Watched r
Calls-Watched fresh = tt
Calls-Watched (and_then c e) = Call-Watched e (Calls-Watched c)
