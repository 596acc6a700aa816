-- ===== src/Ban/Requests/Refused.antt =====
-- ban.go: requireAllowed and requireSignedCaller.
use splatoon.Base.{
  ℕ, ◌≡◌, refl, Bool, true, false, inl, inr, Option, none, some, List, [], ◌∷◌, if◌then◌else◌, ◌==◌,
  Text, text_eq, Assoc, insert, Bool-cases, Option-cases,
}
use splatoon.Ban.Uid.{valid_ban_uid}
use splatoon.Ban.{
  PlayerBan, BanRegistry, Disk, BanError, matches, matching_locked, is_found, refresh,
}
use splatoon.Ban.Requests.{
  allowed_after, signed, check_account, Status, permission_denied, unauthenticated, require_allowed,
  dated, auth_bootstrap_method, require_signed_caller,
}

-- An entry that has been written is met.
pub insert-found :
    (k : Text) (e : PlayerBan) (m : Assoc PlayerBan) (pid : ℕ) (uids : List Text)
    → matches e pid uids ≡ true
    → is_found (matching_locked pid uids (insert k e m)) ≡ true
unfolding insert matching_locked
insert-found k e [] pid uids h = rw h
insert-found k e ((j, b) ∷ m) pid uids h = elim (Bool-cases (text_eq j k)) [
  | inl same ↦ rw (same, h)
  | inr other ↦ elim (Bool-cases (matches b pid uids)) [
    | inl met ↦ rw (other, met)
    | inr not_met ↦ rw (other, not_met) (insert-found k e m pid uids h)
  ]
]

-- The time of a ban does not matter to whom it concerns.
matches-either :
    (t : Bool) (now : ℕ) (b : PlayerBan) (pid : ℕ) (uids : List Text)
    → matches (if t then record b { banned_at = now } else b) pid uids ≡ matches b pid uids
unfolding matches
matches-either true now b pid uids = refl
matches-either false now b pid uids = refl

pub matches-dated :
    (now : ℕ) (b : PlayerBan) (pid : ℕ) (uids : List Text)
    → matches (dated now b) pid uids ≡ matches b pid uids
matches-dated now b pid uids = matches-either (b.banned_at == 0) now b pid uids

-- What a call that passes the check has.
pub record Allowed (identity : Option (ℕ × Text)) (validate : ℕ → Text → Option Status)
    (r' : BanRegistry) : Type 0 where
  pub pid : ℕ
  pub uid : Text
  pub signed_by : identity ≡ some (pid, uid)
  pub known : (pid == 0) ≡ false
  pub valid : valid_ban_uid uid ≡ true
  pub not_banned : matching_locked pid (uid ∷ []) r'.bans ≡ none
  pub account : validate pid uid ≡ none

check-Allowed :
    (pid : ℕ) (uid : Text) (validate : ℕ → Text → Option Status) (x : Option BanError × BanRegistry)
    → (pid == 0) ≡ false
    → valid_ban_uid uid ≡ true
    → (check_account (validate pid uid) (allowed_after pid (uid ∷ []) x)).0 ≡ none
    → Allowed
        (some (pid, uid))
        validate
        (check_account (validate pid uid) (allowed_after pid (uid ∷ []) x)).1
check-Allowed pid uid validate (some e, r) k v h = absurd (cc)
check-Allowed pid uid validate (none, r) k v h =
    elim (Option-cases (matching_locked pid (uid ∷ []) r.bans)) [
      | inr (b, e) ↦
          let g : (check_account (validate pid uid) (allowed_after pid (uid ∷ []) (none, r))).0
              ≡ some permission_denied =
            rw e in
          absurd (cc (g, h))
      | inl e ↦ rw e (record {
        pid = pid;
        uid = uid;
        signed_by = refl;
        known = k;
        valid = v;
        not_banned = e;
        account = rw e at h;
      })
    ]

signed-Allowed :
    (now : ℕ) (disk : Disk) (identity : Option (ℕ × Text)) (validate : ℕ → Text → Option Status)
    (r : BanRegistry)
    → (signed now disk identity validate r).0 ≡ none
    → Allowed identity validate (signed now disk identity validate r).1
unfolding require_allowed
signed-Allowed now disk none validate r h = absurd (cc)
signed-Allowed now disk (some (pid, uid)) validate r h = elim (Bool-cases (pid == 0)) [
  | inl zero_pid ↦
      let g : (signed now disk (some (pid, uid)) validate r).0 ≡ some unauthenticated =
        rw zero_pid in
      absurd (cc (g, h))
  | inr k ↦ elim (Bool-cases (valid_ban_uid uid)) [
    | inr bad ↦
        let g : (signed now disk (some (pid, uid)) validate r).0 ≡ some unauthenticated =
          rw (k, bad) in
        absurd (cc (g, h))
    | inl v ↦
        rw (k, v) (check-Allowed pid uid validate (refresh false now disk r) k v (rw (k, v) at h))
  ]
]

-- A call of a method that is not one of the authentication bootstrap passes requireSignedCaller only
-- with a signed identity that has a PID and a valid UID, that no entry of the register matches, and
-- that the account service accepts.
pub require_signed_caller-Allowed :
    (now : ℕ) (disk : Disk) (method : Text) (identity : Option (ℕ × Text))
    (validate : ℕ → Text → Option Status) (r : BanRegistry)
    → auth_bootstrap_method method ≡ false
    → (require_signed_caller now disk method identity validate r).0 ≡ none
    → Allowed identity validate (require_signed_caller now disk method identity validate r).1
unfolding require_signed_caller
require_signed_caller-Allowed now disk method identity validate r m h =
    rw m (signed-Allowed now disk identity validate r (rw m at h))
