-- ===== src/Ban/Requests/Standing.antt =====
-- ban.go: requireAllowed after a ban, with look-ups and streams in between.
use splatoon.Base.{
  All, ℕ, ◌-◌, ◌≡◌, refl, sym, ap, ◌∙◌, Bool, true, false, not, ◌&&◌, inl, inr, Option, none, some,
  List, [], ◌∷◌, if◌then◌else◌, ◌==◌, ltb, Text, Bool-cases, arith,
}
use splatoon.Ban.{
  PlayerBan, BanRegistry, Disk, present, BanError, invalid_target, ban_entry_key, matches,
  matching_locked, is_found, cancel_current, is_refused, cleaned_entry, refresh, refresh_from,
}
use splatoon.Ban.Requests.{enter, allowed_after, permission_denied, require_allowed, dated, ban}
use splatoon.Ban.Requests.{track_stream, follow, is_empty_list, remove_stream, cleaned_uids}
use splatoon.Ban.Requests.Refused.{insert-found, matches-dated}

-- While the file stays as the register knows it, a look at it changes no ban.
refresh-same :
    (force : Bool) (now : ℕ) (disk : Disk) (r : BanRegistry)
    → r.loaded ≡ true
    → r.file_exists ≡ true
    → disk.stat ≡ present r.file_mod_time r.file_size
    → ((refresh force now disk r).0 ≡ none) × ((refresh force now disk r).1.bans ≡ r.bans)
unfolding refresh refresh_from
refresh-same force now disk r l f e =
    let t : (r.file_mod_time == r.file_mod_time) ≡ true = ground arith in
    let z : (r.file_size == r.file_size) ≡ true = ground arith in
    elim (Bool-cases (not force && ltb (now - r.last_check) 250)) [
      | inl recent ↦ rw (recent) (refl, refl)
      | inr due ↦ rw (due, e, l, f, t, z) (refl, refl)
    ]

-- The register has the entry, and takes the file to be the one of these times and size.
pub record Banned (e : PlayerBan) (t n : ℕ) (r : BanRegistry) : Type 0 where
  pub met :
      (pid : ℕ) (uids : List Text)
      → matches e pid uids ≡ true
      → is_found (matching_locked pid uids r.bans) ≡ true
  pub loaded : r.loaded ≡ true
  pub file_exists : r.file_exists ≡ true
  pub mod_time : r.file_mod_time ≡ t
  pub size : r.file_size ≡ n

enter-Banned :
    (now t n : ℕ) (e : PlayerBan) (x : Option BanError × BanRegistry)
    → (enter now (some (t, n)) e x).0 ≡ none
    → Banned e t n (enter now (some (t, n)) e x).1
unfolding cancel_current
enter-Banned now t n e (some error, r) h = absurd (cc)
enter-Banned now t n e (none, r) h = record {
  met = λ pid uids m. insert-found (ban_entry_key e) e r.bans pid uids m;
  loaded = refl;
  file_exists = refl;
  mod_time = refl;
  size = refl;
}

unless-Banned :
    (bad : Bool) (now t n : ℕ) (e : PlayerBan) (r : BanRegistry) (x : Option BanError × BanRegistry)
    → (if bad then (some invalid_target, r) else enter now (some (t, n)) e x).0 ≡ none
    → Banned e t n (if bad then (some invalid_target, r) else enter now (some (t, n)) e x).1
unless-Banned true now t n e r x h = absurd (cc)
unless-Banned false now t n e r x h = enter-Banned now t n e x h

ban-Banned :
    (now : ℕ) (disk : Disk) (t n : ℕ) (entry : PlayerBan) (r : BanRegistry)
    → (ban now disk (some (t, n)) entry r).0 ≡ none
    → Banned (dated now (cleaned_entry entry)) t n (ban now disk (some (t, n)) entry r).1
unfolding ban
ban-Banned now disk t n entry r h =
    unless-Banned (is_refused (cleaned_entry entry)) now t n (dated now (cleaned_entry entry)) r
      (refresh true now disk r) h

allowed_after-refused :
    (pid : ℕ) (uids : List Text) (x : Option BanError × BanRegistry)
    → x.0 ≡ none
    → is_found (matching_locked pid uids x.1.bans) ≡ true
    → (allowed_after pid uids x).0 ≡ some permission_denied
allowed_after-refused pid uids (some e, r) h m = absurd (cc)
allowed_after-refused pid uids (none, r) h m = rw m

-- A register that has an entry, and the file that it knows, refuses whom the entry matches.
pub require_allowed-Banned :
    (e : PlayerBan) (t n : ℕ) (r : BanRegistry) (now : ℕ) (disk : Disk) (pid : ℕ) (uids : List Text)
    → Banned e t n r
    → disk.stat ≡ present t n
    → matches e pid uids ≡ true
    → (require_allowed now disk pid uids r).0 ≡ some permission_denied
unfolding require_allowed
require_allowed-Banned e t n r now disk pid uids b stat m =
    let (ok, same) =
      refresh-same false now disk r b.loaded b.file_exists
        (stat ∙ sym (λ i. present (b.mod_time i) (b.size i))) in
    allowed_after-refused pid uids (refresh false now disk r) ok
      (ap (λ l. is_found (matching_locked pid uids l)) same ∙ b.met pid uids m)

refresh-Banned :
    (e : PlayerBan) (t n now : ℕ) (disk : Disk) (r : BanRegistry)
    → Banned e t n r
    → disk.stat ≡ present t n
    → Banned e t n (refresh false now disk r).1
unfolding refresh refresh_from
refresh-Banned e t n now disk r b stat =
    let known : disk.stat ≡ present r.file_mod_time r.file_size =
      stat ∙ sym (λ i. present (b.mod_time i) (b.size i)) in
    let m : (r.file_mod_time == r.file_mod_time) ≡ true = ground arith in
    let z : (r.file_size == r.file_size) ≡ true = ground arith in
    elim (Bool-cases (not false && ltb (now - r.last_check) 250)) [
      | inl recent ↦ rw recent b
      | inr due ↦
          rw (due, known, b.loaded, b.file_exists, m, z)
            (record {
              met = b.met;
              loaded = refl;
              file_exists = refl;
              mod_time = b.mod_time;
              size = b.size;
            })
    ]

follow-Banned :
    (e : PlayerBan) (t n pid : ℕ) (uids : List Text) (x : Option BanError × BanRegistry)
    → Banned e t n x.1
    → Banned e t n (follow pid uids x).1
follow-Banned e t n pid uids (some error, r) b = b
follow-Banned e t n pid uids (none, r) b =
    elim (Bool-cases (is_found (matching_locked pid uids r.bans))) [
      | inl met ↦ rw met b
      | inr not_met ↦ elim (Bool-cases (pid == 0 && is_empty_list uids)) [
        | inl nobody ↦ rw (not_met, nobody) b
        | inr somebody ↦
            rw (not_met, somebody)
              (record {
                met = b.met;
                loaded = b.loaded;
                file_exists = b.file_exists;
                mod_time = b.mod_time;
                size = b.size;
              })
      ]
    ]

allowed_after-state :
    (pid : ℕ) (uids : List Text) (x : Option BanError × BanRegistry)
    → (allowed_after pid uids x).1 ≡ x.1
allowed_after-state pid uids (some e, r) = refl
allowed_after-state pid uids (none, r) = refl

-- The calls that neither ban nor lift a ban: a look-up, a stream that begins, and one that ends.
pub data Consultation : Type 0 where
  allowed : ℕ → Disk → ℕ → List Text → Consultation
  followed : ℕ → Disk → ℕ → List Text → Consultation
  ended : ℕ → Consultation

unfoldable pub consult : Consultation → BanRegistry → BanRegistry
unfolding require_allowed track_stream remove_stream
consult (allowed now disk pid uids) r = (require_allowed now disk pid uids r).1
consult (followed now disk pid uids) r = (track_stream now disk pid uids r).1
consult (ended id) r = remove_stream id r

unfoldable pub consult_all : List Consultation → BanRegistry → BanRegistry
unfolding consult
consult_all [] r = r
consult_all (c ∷ cs) r = consult_all cs (consult c r)

-- The file that the call sees has these times and size.
abbrev pub SeesFile : ℕ → ℕ → Consultation → Type 0
SeesFile t n (allowed now disk pid uids) = disk.stat ≡ present t n
SeesFile t n (followed now disk pid uids) = disk.stat ≡ present t n
SeesFile t n (ended id) = Unit

consult-Banned :
    (e : PlayerBan) (t n : ℕ) (c : Consultation) (r : BanRegistry)
    → SeesFile t n c
    → Banned e t n r
    → Banned e t n (consult c r)
unfolding consult require_allowed track_stream remove_stream
consult-Banned e t n (allowed now disk pid uids) r h b =
    rw (allowed_after-state pid uids (refresh false now disk r))
      (refresh-Banned e t n now disk r b h)
consult-Banned e t n (followed now disk pid uids) r h b =
    follow-Banned e t n pid (cleaned_uids uids) (refresh false now disk r)
      (refresh-Banned e t n now disk r b h)
consult-Banned e t n (ended id) r h b = record {
  met = b.met;
  loaded = b.loaded;
  file_exists = b.file_exists;
  mod_time = b.mod_time;
  size = b.size;
}

pub consult_all-Banned :
    (e : PlayerBan) (t n : ℕ) (cs : List Consultation) (r : BanRegistry)
    → All (SeesFile t n) cs
    → Banned e t n r
    → Banned e t n (consult_all cs r)
unfolding consult_all
consult_all-Banned e t n [] r h b = b
consult_all-Banned e t n (c ∷ cs) r h b =
    consult_all-Banned e t n cs (consult c r) h.1 (consult-Banned e t n c r h.0 b)

-- When a ban has succeeded and only look-ups, streams that begin and streams that end have come
-- since, each of which saw the file with the time and the size with which the ban saved it,
-- requireAllowed, on a file that still has these, refuses with PermissionDenied every PID and list
-- of UIDs that the entry matches, whatever the clock says.
pub require_allowed-ban :
    (now : ℕ) (disk : Disk) (t n : ℕ) (entry : PlayerBan) (r : BanRegistry) (cs : List Consultation)
    (now' : ℕ) (disk' : Disk) (pid : ℕ) (uids : List Text)
    → (ban now disk (some (t, n)) entry r).0 ≡ none
    → All (SeesFile t n) cs
    → disk'.stat ≡ present t n
    → matches (cleaned_entry entry) pid uids ≡ true
    → (require_allowed now' disk' pid uids
        (consult_all cs (ban now disk (some (t, n)) entry r).1)).0
      ≡ some permission_denied
require_allowed-ban now disk t n entry r cs now' disk' pid uids h seen stat m =
    let r' = (ban now disk (some (t, n)) entry r).1 in
    let e = dated now (cleaned_entry entry) in
    require_allowed-Banned e t n (consult_all cs r') now' disk' pid uids
      (consult_all-Banned e t n cs r' seen (ban-Banned now disk t n entry r h)) stat
      (matches-dated now (cleaned_entry entry) pid uids ∙ m)
