-- ===== src/Session/Fields.antt =====
-- session_address_rewrite.go: a message as the list of its fields, read by protowire and written back.
use splatoon.Base.{
  Bool, true, false, ◌&&◌, ◌==◌, if◌then◌else◌, sym, ◌∙◌, ℕ, zero, suc, ◌+◌, ◌^◌, ◌≤◌, ◌<◌, ◌≡◌,
  refl, ap, Option, none, some, List, [], ◌∷◌, ◌++◌, length, length-append, take, drop, Text, All,
  arith,
}
use splatoon.Session.{Wire}
use mathlib.Core.List.{append-nil, append_assoc}

pub record Champ : Type 0 where
  pub num : ℕ
  pub typ : ℕ
  pub contenu : Text

-- What is dropped and what is taken, for the slices reste[n:] and reste[:n].
pub drop-append : (xs ys : Text) → drop (length xs) (xs ++ ys) ≡ ys
drop-append [] ys = refl
drop-append (x ∷ xs) ys = drop-append xs ys

pub take-append : (xs ys : Text) → take (length xs) (xs ++ ys) ≡ xs
take-append [] ys = refl
take-append (x ∷ xs) ys = ap (λ t. x ∷ t) (take-append xs ys)

pub length-drop : (n : ℕ) (xs : Text) → n ≤ length xs → length (drop n xs) + n ≡ length xs
length-drop zero xs h = omega arith
length-drop (suc n) [] h = omega arith
length-drop (suc n) (x ∷ xs) h = omega (arith, length-drop n xs)

pub length-prefix : (n : ℕ) (xs : Text) → n ≤ length xs → length (take n xs) ≡ n
length-prefix zero xs h = omega arith
length-prefix (suc n) [] h = omega arith
length-prefix (suc n) (x ∷ xs) h = omega (arith, length-prefix n xs)

module _ (w : Wire) where
  unfoldable pub lire_champ : Text → Option (Champ × Text)
  lire_champ b = elim (w.consume_tag b) [
    | none ↦ none
    | some (num, typ, n) ↦ elim (w.consume_field_value num typ (drop n b)) [
      | none ↦ none
      | some m ↦
          some (record { num = num; typ = typ; contenu = take m (drop n b) }, drop m (drop n b))
    ]
  ]

  unfoldable pub lire : ℕ → Text → Option (List Champ)
  lire fuel [] = some []
  lire zero (b ∷ bs) = none
  lire (suc fuel) (b ∷ bs) = elim (lire_champ (b ∷ bs)) [
    | none ↦ none
    | some (c, rest) ↦ elim (lire fuel rest) [ none ↦ none | some cs ↦ some (c ∷ cs) ]
  ]

  -- The fields of a message, where all of it can be read.
  unfoldable pub champs : Text → Option (List Champ)
  champs b = lire (length b) b

  abbrev pub ecrit : Champ → Text
  ecrit c = w.tag c.num c.typ ++ c.contenu

  abbrev pub ecrits : List Champ → Text
  ecrits [] = []
  ecrits (c ∷ cs) = ecrit c ++ ecrits cs

  -- A field that reads back wherever it is written.
  pub record IsChamp (c : Champ) : Type 0 where
    pub num_low : 1 ≤ c.num
    pub num_high : c.num < 2 ^ 31
    pub typ_high : c.typ < 8
    pub reads :
        (rest : Text)
        → w.consume_field_value c.num c.typ (c.contenu ++ rest) ≡ some (length c.contenu)

  pub lire_champ-ecrit :
      (c : Champ) (rest : Text) → IsChamp c → lire_champ (ecrit c ++ rest) ≡ some (c, rest)
  unfolding lire_champ
  lire_champ-ecrit c rest h = rw append_assoc (
      ground (
        arith,
        w.tag_read c.num c.typ (c.contenu ++ rest) h.num_low h.num_high h.typ_high,
        drop-append (w.tag c.num c.typ) (c.contenu ++ rest),
        h.reads rest,
        take-append c.contenu rest,
        drop-append c.contenu rest,
      ))

  tag_long : (num typ : ℕ) → 1 ≤ num → num < 2 ^ 31 → typ < 8 → 1 ≤ length (w.tag num typ)
  tag_long num typ a b c =
      (w.tag_taken (w.tag num typ ++ []) num typ _ (w.tag_read num typ [] a b c)).3

  lire_step :
      (fuel : ℕ) (b : Text) (c : Champ) (rest : Text) (cs : List Champ)
      → lire_champ b ≡ some (c, rest)
      → 1 ≤ length b
      → lire fuel rest ≡ some cs
      → lire (suc fuel) b ≡ some (c ∷ cs)
  unfolding lire
  lire_step fuel [] c rest cs e l r = absurd (omega arith)
  lire_step fuel (b ∷ bs) c rest cs e l r = ground arith

  lire-ecrits :
      (cs : List Champ) (fuel : ℕ)
      → All IsChamp cs
      → length (ecrits cs) ≤ fuel
      → lire fuel (ecrits cs) ≡ some cs
  lire-ecrits [] fuel h l = unfold lire in refl
  lire-ecrits (c ∷ cs) zero h l = absurd (
      omega (
        arith,
        tag_long c.num c.typ h.0.num_low h.0.num_high h.0.typ_high,
        length-append (ecrit c) (ecrits cs),
        length-append (w.tag c.num c.typ) c.contenu,
      ))
  lire-ecrits (c ∷ cs) (suc fuel) h l =
      let long : 1 ≤ length (ecrit c) = omega (
        arith,
        tag_long c.num c.typ h.0.num_low h.0.num_high h.0.typ_high,
        length-append (w.tag c.num c.typ) c.contenu,
      ) in
      let all : length (ecrit c ++ ecrits cs) ≡ length (ecrit c) + length (ecrits cs) =
        length-append (ecrit c) (ecrits cs) in
      lire_step fuel (ecrit c ++ ecrits cs) c (ecrits cs) cs (lire_champ-ecrit c (ecrits cs) h.0)
        (omega arith) (lire-ecrits cs fuel h.1 (omega arith))

  -- What is written reads back.
  pub champs-ecrits : (cs : List Champ) → All IsChamp cs → champs (ecrits cs) ≡ some cs
  unfolding champs
  champs-ecrits cs h = lire-ecrits cs (length (ecrits cs)) h (omega arith)

  abbrev pub champ_chaine : ℕ → Text → Champ
  champ_chaine n v = record { num = n; typ = w.bytes_type; contenu = w.bytes v }

  abbrev pub champ_varint : ℕ → ℕ → Champ
  champ_varint n v = record { num = n; typ = w.varint_type; contenu = w.varint v }

  pub champ_chaine-IsChamp : (n : ℕ) (v : Text) → 1 ≤ n → n < 2 ^ 31 → IsChamp (champ_chaine n v)
  champ_chaine-IsChamp n v lo hi = record {
    num_low = lo;
    num_high = hi;
    typ_high = w.types_small.1;
    reads = λ rest. rw (w.value_of_bytes, w.bytes_read) refl;
  }

  pub champ_varint-IsChamp :
      (n v : ℕ) → 1 ≤ n → n < 2 ^ 31 → v < 2 ^ 64 → IsChamp (champ_varint n v)
  champ_varint-IsChamp n v lo hi small = record {
    num_low = lo;
    num_high = hi;
    typ_high = w.types_small.0;
    reads = λ rest. rw (w.value_of_varint, w.varint_read v rest small) refl;
  }

  -- The field is the one of that number, and holds bytes.
  abbrev pub est_chaine : ℕ → Champ → Bool
  est_chaine cible c = c.num == cible && c.typ == w.bytes_type

  -- The field that a loop adds at the end, where it has not seen it.
  abbrev pub ajout : Bool → Champ → List Champ
  ajout vu c = if vu then [] else c ∷ []

  pub ecrits-append : (cs ds : List Champ) → ecrits (cs ++ ds) ≡ ecrits cs ++ ecrits ds
  ecrits-append [] ds = refl
  ecrits-append (c ∷ cs) ds =
      ap (λ t. ecrit c ++ t) (ecrits-append cs ds)
      ∙ sym (append_assoc (ecrit c) (ecrits cs) (ecrits ds))

  pub ecrits-ajout :
      (vu : Bool) (cs : List Champ) (c : Champ)
      → (if vu then ecrits cs else ecrits cs ++ ecrit c) ≡ ecrits (cs ++ ajout vu c)
  ecrits-ajout true cs c = rw append-nil refl
  ecrits-ajout false cs c = sym (ecrits-append cs (c ∷ []) ∙ rw append-nil refl)
