-- ===== src/Rotation.antt =====
-- rotation_generee.go: the schedule of stages, drawn from the number of a slot of two hours.
pub mod Shuffle
pub mod Draw
pub mod Bounds
pub mod Window
pub mod Slots
pub mod Schedule
pub mod Examples
use splatoon.Base.{
  ℕ, zero, suc, ◌+◌, ◌-◌, ◌*◌, ◌/◌, ◌%◌, ◌^◌, ◌≡◌, refl, Bool, true, false, not, Option, none, some,
  List, [], ◌∷◌, ◌++◌, map, if◌then◌else◌, ◌==◌, ℤ, pos, negsuc, Text, codes, last_index_byte,
  length, get_or, set, take, any,
}
use Prim.Native.Nat.{bit_xor}

abbrev pub stages_connus : List ℕ
stages_connus =
    1 ∷ 2 ∷ 3 ∷ 4 ∷ 5 ∷ 6 ∷ 7 ∷ 8 ∷ 9 ∷ 10 ∷ 11 ∷ 12 ∷ 13 ∷ 14 ∷ 15 ∷ 16 ∷ 17 ∷ 18 ∷ 19 ∷ 20 ∷ 21
    ∷ 22 ∷ 23 ∷ 24 ∷ 26 ∷ []

abbrev pub regles_classees : List ℕ
regles_classees = 1 ∷ 2 ∷ 3 ∷ 4 ∷ []

abbrev pub phases_engendrees : ℕ
phases_engendrees = 12

-- rotationPeriod in seconds
abbrev pub rotation_period : ℕ
rotation_period = 7200

-- Go's division of a signed integer goes towards zero.
abbrev pub negative : ℕ → ℤ
negative zero = pos 0
negative (suc n) = negsuc n

abbrev pub quotient : ℤ → ℕ → ℤ
quotient (pos n) d = pos (n / d)
quotient (negsuc n) d = negative (suc n / d)

abbrev pub remainder : ℤ → ℕ → ℤ
remainder (pos n) d = pos (n % d)
remainder (negsuc n) d = negative (suc n % d)

abbrev pub pred : ℤ → ℤ
pred (pos zero) = negsuc 0
pred (pos (suc n)) = pos n
pred (negsuc n) = negsuc (suc n)

abbrev pub succ : ℤ → ℤ
succ (pos n) = pos (suc n)
succ (negsuc zero) = pos 0
succ (negsuc (suc n)) = negsuc n

-- The conversion of an int64 to uint64.
abbrev pub uint64 : ℤ → ℕ
uint64 (pos n) = n % 2 ^ 64
uint64 (negsuc n) = (2 ^ 64 - 1) - n % 2 ^ 64

-- The conversion of a uint64 to int64.
abbrev pub int64 : ℕ → ℤ
int64 n = if n / 2 ^ 63 == 0 then pos n else negative (2 ^ 64 - n)

-- An instant in seconds since the epoch.
unfoldable pub creneau_de : ℤ → ℤ
creneau_de t = quotient t rotation_period

-- x ^= x >> k
abbrev xor_shift : ℕ → ℕ → ℕ
xor_shift x k = bit_xor x (x / 2 ^ k)

unfoldable pub melange : ℤ → ℕ → ℕ
melange creneau sel =
    let x = (uint64 creneau * 11400714819323198485 + sel * 13787848793156543929) % 2 ^ 64 in
    let x1 = (xor_shift x 30 * 13787848793156543929) % 2 ^ 64 in
    let x2 = (xor_shift x1 27 * 10723151780598845931) % 2 ^ 64 in xor_shift x2 31

abbrev pub swap : ℕ → ℕ → List ℕ → List ℕ
swap i j xs = set (set xs i (get_or xs j 0)) j (get_or xs i 0)

-- The loops that walk down from the last index i, with the salt of the list that they shuffle.
unfoldable pub shuffle : ℤ → ℕ → ℕ → List ℕ → List ℕ
unfolding melange
shuffle cle sel zero xs = xs
shuffle cle sel (suc i) xs =
    shuffle cle sel i (swap (suc i) (melange cle (suc i + sel) % (suc i + 1)) xs)

abbrev is_negative : ℤ → Bool
is_negative (pos n) = false
is_negative (negsuc n) = true

abbrev pub is_zero : ℤ → Bool
is_zero (pos zero) = true
is_zero (pos (suc n)) = false
is_zero (negsuc n) = false

-- Five slots in a row share a permutation.
unfoldable pub groupe_de : ℤ → ℤ
groupe_de creneau =
    let g = quotient creneau 5 in
    if is_negative creneau then (if is_zero (remainder creneau 5) then g else pred g) else g

unfoldable pub rang_de : ℤ → ℕ
rang_de creneau = elim (remainder creneau 5) [ pos n ↦ n | negsuc n ↦ 5 - suc n ]

unfoldable pub permutation_de : ℤ → List ℕ
unfolding shuffle
permutation_de groupe = shuffle groupe 22438 24 stages_connus

-- The n elements from an index on, going round.
unfoldable pub window : ℕ → ℕ → List ℕ → List ℕ
window zero i xs = []
window (suc n) i xs = get_or xs (i % length xs) 0 ∷ window n (suc i) xs

unfoldable pub melange_stages : ℤ → List ℕ
unfolding permutation_de window groupe_de rang_de
melange_stages creneau =
    let perm = permutation_de (groupe_de creneau) in
    window (length perm) ((10 * rang_de creneau) % length perm) perm

-- `exclus` holds the keys that the map sends to true.
abbrev pub mem : ℕ → List ℕ → Bool
mem v xs = any (λ x. x == v) xs

unfoldable pub pick : List ℕ → List ℕ → List ℕ → List ℕ × List ℕ
pick [] out exclus = (out, exclus)
pick (v ∷ vs) out exclus =
    let kept = pick vs (out ++ v ∷ []) (exclus ++ v ∷ []) in
    let skipped = pick vs out exclus in
    if length out == 2 then (out, exclus) else if not (mem v exclus) then kept else skipped

unfoldable pub fill : List ℕ → List ℕ → List ℕ
fill [] out = out
fill (v ∷ vs) out =
    let kept = fill vs (out ++ v ∷ []) in
    let skipped = fill vs out in
    if length out == 2 then out else if not (mem v out) then kept else skipped

-- The two stages of a mode, and the exclusions that they leave.
unfoldable pub tire_stages : List ℕ → List ℕ → List ℕ × List ℕ
unfolding pick fill
tire_stages ordre exclus = let drawn = pick ordre [] exclus in (fill ordre drawn.0, drawn.1)

unfoldable pub regles_du_creneau : ℤ → List ℕ
unfolding shuffle
regles_du_creneau creneau = shuffle creneau 39966 3 regles_classees

unfoldable pub draws : ℕ → List ℕ → List ℕ → List ℕ → List ℕ
unfolding tire_stages
draws zero ordre exclus out = out
draws (suc n) ordre exclus out =
    let drawn = tire_stages ordre exclus in draws n ordre drawn.1 (out ++ drawn.0)

unfoldable pub stages_du_creneau : ℤ → List ℕ
unfolding draws melange_stages
stages_du_creneau creneau = draws 5 (melange_stages creneau) [] []

abbrev alphabet : Text
alphabet = codes "abcdefghijklmnopqrstuvwxyz0123456789"

letters : ℕ → ℕ → ℕ → Text
unfolding melange
letters zero i h = []
letters (suc n) i h =
    let h' = melange (int64 h) (i + 1) in get_or alphabet (h' % 36) 0 ∷ letters n (suc i) h'

unfoldable pub identifiant_de_phase : ℤ → Text
unfolding letters melange
identifiant_de_phase creneau = letters 20 0 (melange creneau 32343)
