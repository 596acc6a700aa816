-- ===== src/Ban/Requests/Listed.antt =====
-- ban.go: the order of the entries that are written to the file and shown to the operator.
use splatoon.Base.{
  ◌≤◌, ◌≡◌, false, List, [], ◌∷◌, All-map, AllPairs, sort_by, text_lt, text_lt_negtrans,
  text_lt_asym, Perm, sort_by-perm, IsSorted, IsTotal, sort_by-IsSorted, Assoc, arith,
}
use splatoon.Ban.{PlayerBan, before_ban, values, listed}

before_ban-IsTotal : IsTotal before_ban
before_ban-IsTotal = record {
  negtrans = λ a b c h k. ground (arith, text_lt_negtrans a.uid b.uid c.uid);
  asym = λ a b h. ground (arith, text_lt_asym a.uid b.uid);
}

-- The PID of the first is not above that of the second, nor is its UID where the PIDs are the same.
abbrev pub InOrder : PlayerBan → PlayerBan → Type 0
InOrder a b = (a.pid ≤ b.pid) × (a.pid ≡ b.pid → text_lt b.uid a.uid ≡ false)

InOrder-of : (a b : PlayerBan) → before_ban b a ≡ false → InOrder a b
InOrder-of a b h = (ground arith, λ e. ground arith)

AllPairs-of : (bs : List PlayerBan) → IsSorted before_ban bs → AllPairs InOrder bs
AllPairs-of [] h = tt
AllPairs-of (b ∷ bs) h =
    (All-map _ (InOrder b) (λ c p. InOrder-of b c p) bs h.0, AllPairs-of bs h.1)

-- Among the entries as they are listed and written to the file, the PID of one that stands before
-- another is not above it, nor is its UID where the PIDs are the same; and they are the entries of
-- the register, each once.
pub listed-IsSorted :
    (m : Assoc PlayerBan) → AllPairs InOrder (listed m) × Perm (listed m) (values m)
unfolding listed
listed-IsSorted m = (
  AllPairs-of (sort_by before_ban (values m))
      (sort_by-IsSorted before_ban before_ban-IsTotal (values m)),
  sort_by-perm before_ban (values m),
)
