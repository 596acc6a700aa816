-- ===== src/Ban/Requests/Lifted.antt =====
-- ban.go: unbanTarget.
use splatoon.Base.{
  ℕ, ◌≡◌, refl, sym, ap, ◌∙◌, Bool, true, false, not, ◌&&◌, ◌||◌, inl, inr, Option, none, some, [],
  ◌∷◌, if◌then◌else◌, ◌==◌, Text, is_empty, text_eq, text_eq_iff, any, keep, Assoc, Bool-cases,
  arith,
}
use splatoon.Ban.Uid.{clean_ban_uid, valid_ban_uid}
use splatoon.Ban.{
  PlayerBan, BanRegistry, Disk, BanError, invalid_target, matches, matching_locked, refresh,
  persist_locked,
}
use splatoon.Ban.Requests.{is_target, found, lift, unban_target}

either_way :
    (p : Bool) (x y : Text)
    → (p || (not (is_empty y) && text_eq x y))
      ≡ (if p then true else if is_empty x then false else any (λ (z : Text). text_eq z x) (y ∷ []))
either_way true x y = refl
either_way false x y = ground (arith, text_eq_iff x y, text_eq_iff y x)

-- The test of the removal is the test of the check.
is_target-matches :
    (pid : ℕ) (uid : Text) (b : PlayerBan)
    → is_target pid (clean_ban_uid uid) b ≡ matches b pid (uid ∷ [])
unfolding is_target matches
is_target-matches pid uid b =
    either_way (not (pid == 0) && b.pid == pid) (clean_ban_uid b.uid) (clean_ban_uid uid)

no_match :
    (pid : ℕ) (uid : Text) (m : Assoc PlayerBan)
    → matching_locked pid (uid ∷ []) (keep (λ e. not (is_target pid (clean_ban_uid uid) e.1)) m)
      ≡ none
unfolding matching_locked
no_match pid uid [] = refl
no_match pid uid (e ∷ m) = elim (Bool-cases (is_target pid (clean_ban_uid uid) e.1)) [
  | inl t ↦ rw (t, keep) (no_match pid uid m)
  | inr t ↦
      let n : matches e.1 pid (uid ∷ []) ≡ false = sym (is_target-matches pid uid e.1) ∙ t in
      rw (t, keep, n) (no_match pid uid m)
]

-- The register when a ban has been lifted: no entry concerns the player, and the others stay.
pub record Lifted (pid : ℕ) (uid : Text) (before after : Assoc PlayerBan) : Type 0 where
  pub nobody : matching_locked pid (uid ∷ []) after ≡ none
  pub others : after ≡ keep (λ e. not (matches e.1 pid (uid ∷ []))) before

kept_same :
    (pid : ℕ) (uid : Text) (m : Assoc PlayerBan)
    → keep (λ e. not (is_target pid (clean_ban_uid uid) e.1)) m
      ≡ keep (λ e. not (matches e.1 pid (uid ∷ []))) m
kept_same pid uid [] = refl
kept_same pid uid (e ∷ m) = elim (Bool-cases (is_target pid (clean_ban_uid uid) e.1)) [
  | inl t ↦
      let n : matches e.1 pid (uid ∷ []) ≡ true = sym (is_target-matches pid uid e.1) ∙ t in
      rw (t, n, keep) (kept_same pid uid m)
  | inr t ↦
      let n : matches e.1 pid (uid ∷ []) ≡ false = sym (is_target-matches pid uid e.1) ∙ t in
      rw (t, n, keep) (ap (λ l. e ∷ l) (kept_same pid uid m))
]

same_bans :
    (b : Bool) (now : ℕ) (saved : Option (ℕ × ℕ)) (r : BanRegistry)
    → (if b then found (persist_locked now saved r) else ((none, false), r)).1.bans ≡ r.bans
same_bans false now saved r = refl
same_bans true now none r = refl
same_bans true now (some (t, n)) r = refl

lift-Lifted :
    (now : ℕ) (saved : Option (ℕ × ℕ)) (pid : ℕ) (uid : Text) (x : Option BanError × BanRegistry)
    → (lift now saved pid (clean_ban_uid uid) x).0.0 ≡ none
    → Lifted pid uid x.1.bans (lift now saved pid (clean_ban_uid uid) x).1.bans
lift-Lifted now saved pid uid (some e, r) h = absurd (cc)
lift-Lifted now saved pid uid (none, r) h =
    let left =
      keep (λ (e : Text × PlayerBan). not (is_target pid (clean_ban_uid uid) e.1)) r.bans in
    let here =
      same_bans (any (λ e. is_target pid (clean_ban_uid uid) e.1) r.bans) now saved
        (record r { bans = left }) in
    record {
      nobody = ap (matching_locked pid (uid ∷ [])) here ∙ no_match pid uid r.bans;
      others = here ∙ kept_same pid uid r.bans;
    }

unless-Lifted :
    (bad : Bool) (now : ℕ) (saved : Option (ℕ × ℕ)) (pid : ℕ) (uid : Text) (r : BanRegistry)
    (x : Option BanError × BanRegistry)
    → (if bad
        then ((some invalid_target, false), r)
        else lift now saved pid (clean_ban_uid uid) x).0.0
      ≡ none
    → Lifted pid uid x.1.bans
        (if bad
          then ((some invalid_target, false), r)
          else lift now saved pid (clean_ban_uid uid) x).1.bans
unless-Lifted true now saved pid uid r x h = absurd (cc)
unless-Lifted false now saved pid uid r x h = lift-Lifted now saved pid uid x h

-- When unbanTarget succeeds, no entry of the register matches the PID and the UID any more, and the
-- entries that remain are exactly those that the register had after the refresh with which
-- unbanTarget begins and that did not match them, in their order.
pub unban_target-Lifted :
    (now : ℕ) (disk : Disk) (saved : Option (ℕ × ℕ)) (pid : ℕ) (uid : Text) (r : BanRegistry)
    → (unban_target now disk saved pid uid r).0.0 ≡ none
    → Lifted pid uid (refresh true now disk r).1.bans (unban_target now disk saved pid uid r).1.bans
unfolding unban_target
unban_target-Lifted now disk saved pid uid r h =
    unless-Lifted (pid == 0 && not (valid_ban_uid (clean_ban_uid uid))) now saved pid uid r
      (refresh true now disk r) h
