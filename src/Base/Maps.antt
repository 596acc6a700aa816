-- ===== src/Base/Maps.antt =====
-- Go maps with string keys, as association lists. The order of a list is the order in which a
-- `range` over the map meets its entries, so what is proved for every list holds for every order.
use mathlib.Core.Path.{◌≡◌, refl, subst}
use mathlib.Core.Logic.{inl, inr}
use mathlib.Core.Bool.{false, not}
use mathlib.Core.Option.{Option, none, some}
use mathlib.Core.List.{List, [], ◌∷◌, map}
use native.Mathlib.Omega.{arith}
use package.splatoon.Base.Tests.{if◌then◌else◌, Bool-cases}
use package.splatoon.Base.Lists.{keep, All, AllPairs}
use package.splatoon.Base.Bytes.{Text, text_eq, text_eq_iff}

abbrev pub Assoc {ℓ} : Type ℓ → Type ℓ
Assoc V = List (Text × V)

module _ {ℓ} {V : Type ℓ} where
  unfoldable pub lookup : Text → Assoc V → Option V
  lookup k [] = none
  lookup k ((j, v) ∷ m) = if text_eq j k then some v else lookup k m

  unfoldable pub insert : Text → V → Assoc V → Assoc V
  insert k v [] = (k, v) ∷ []
  insert k v ((j, w) ∷ m) = if text_eq j k then (j, v) ∷ m else (j, w) ∷ insert k v m

  unfoldable pub erase : Text → Assoc V → Assoc V
  erase k m = keep (λ e. not (text_eq e.0 k)) m

  abbrev pub keys : Assoc V → List Text
  keys = map (λ e. e.0)

  -- A read gives the value last written at its key.
  pub lookup-insert :
      (k j : Text) (v : V) (m : Assoc V)
      → lookup j (insert k v m) ≡ (if text_eq k j then some v else lookup j m)
  unfolding lookup insert
  lookup-insert k j v [] = refl
  lookup-insert k j v ((i, w) ∷ m) =
      ground (arith, text_eq_iff k j, text_eq_iff i k, text_eq_iff i j, lookup-insert k j v m)

  pub lookup-erase :
      (k j : Text) (m : Assoc V) → lookup j (erase k m) ≡ (if text_eq k j then none else lookup j m)
  unfolding lookup erase
  lookup-erase k j [] = ground arith
  lookup-erase k j ((i, w) ∷ m) =
      ground (arith, text_eq_iff k j, text_eq_iff i k, text_eq_iff i j, lookup-erase k j m)

-- A Go map has one entry for a key.
abbrev pub Differ : Text → Text → Type 0
Differ j k = text_eq j k ≡ false

pub Differ-sym : (j k : Text) → Differ j k → Differ k j
Differ-sym j k h = ground (arith, text_eq_iff j k, text_eq_iff k j)

module _ {ℓ} {V : Type ℓ} where
  abbrev pub IsMap : Assoc V → Type 0
  IsMap m = AllPairs Differ (keys m)

  pub All-keys-insert {κ} :
      (P : Text → Type κ) (k : Text) (v : V) (m : Assoc V)
      → P k
      → All P (keys m)
      → All P (keys (insert k v m))
  unfolding insert
  All-keys-insert P k v [] h hs = (h, tt)
  All-keys-insert P k v ((j, w) ∷ m) h hs = elim (Bool-cases (text_eq j k)) [
    | inl e ↦ rw e hs
    | inr e ↦ rw e (hs.0, All-keys-insert P k v m h hs.1)
  ]

  pub insert-IsMap : (k : Text) (v : V) (m : Assoc V) → IsMap m → IsMap (insert k v m)
  unfolding insert
  insert-IsMap k v [] h = (tt, tt)
  insert-IsMap k v ((j, w) ∷ m) h = elim (Bool-cases (text_eq j k)) [
    | inl e ↦ rw e h
    | inr e ↦ rw e (All-keys-insert (Differ j) k v m e h.0, insert-IsMap k v m h.1)
  ]

  -- What holds of every key holds of a key that has an entry.
  pub All-keys-lookup {κ} :
      (P : Text → Type κ) (k : Text) (v : V) (m : Assoc V)
      → All P (keys m)
      → lookup k m ≡ some v
      → P k
  unfolding lookup
  All-keys-lookup P k v [] h e = absurd (cc)
  All-keys-lookup P k v ((j, w) ∷ m) h e = elim (Bool-cases (text_eq j k)) [
    | inl same ↦ subst P ((text_eq_iff j k).0 same) h.0
    | inr other ↦ All-keys-lookup P k v m h.1 (rw other at e)
  ]
