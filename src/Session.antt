-- ===== src/Session.antt =====
-- session_address_rewrite.go: the host and the port of a captured session rewritten inside the
-- protobuf message, field by field.
pub mod Fields
pub mod Read
pub mod Loop
pub mod Rewrite
pub mod Strings
pub mod Effect
pub mod Path
pub mod Address
pub mod Located
pub mod Answer
pub mod Examples
use splatoon.Base.{
  ℕ, zero, suc, ◌+◌, ◌^◌, ◌≤◌, ◌<◌, ◌≡◌, Bool, true, false, ◌&&◌, ◌||◌, Option, none, some, List,
  [], ◌∷◌, ◌++◌, if◌then◌else◌, ◌==◌, length, take, drop, Text,
}

-- The package protowire as far as the code calls it. A `consume_…` answers `none` for Go's negative
-- count, and else how many bytes it took. `tag`, `bytes` and `varint` are what the AppendTag,
-- AppendBytes (AppendString) and AppendVarint of the package append. The laws are those of the wire
-- format: what was read had that many bytes, only those bytes matter, and what was written reads back.
pub record Wire : Type 0 where
  pub varint_type : ℕ
  pub bytes_type : ℕ
  pub consume_tag : Text → Option (ℕ × ℕ × ℕ)
  pub consume_bytes : Text → Option (Text × ℕ)
  pub consume_varint : Text → Option (ℕ × ℕ)
  pub consume_field_value : ℕ → ℕ → Text → Option ℕ
  pub tag : ℕ → ℕ → Text
  pub bytes : Text → Text
  pub varint : ℕ → Text
  pub types_small : (varint_type < 8) × (bytes_type < 8)
  pub tag_taken :
      (b : Text) (num typ n : ℕ)
      → consume_tag b ≡ some (num, typ, n)
      → (1 ≤ num) × (num < 2 ^ 31) × (typ < 8) × (1 ≤ n) × (n ≤ length b)
  pub tag_read :
      (num typ : ℕ) (rest : Text)
      → 1 ≤ num
      → num < 2 ^ 31
      → typ < 8
      → consume_tag (tag num typ ++ rest) ≡ some (num, typ, length (tag num typ))
  pub bytes_read : (v rest : Text) → consume_bytes (bytes v ++ rest) ≡ some (v, length (bytes v))
  pub varint_read :
      (v : ℕ) (rest : Text)
      → v < 2 ^ 64
      → consume_varint (varint v ++ rest) ≡ some (v, length (varint v))
  pub bytes_prefix :
      (b rest v : Text) (m : ℕ)
      → consume_bytes b ≡ some (v, m)
      → consume_bytes (take m b ++ rest) ≡ some (v, m)
  pub value_taken :
      (num typ : ℕ) (b : Text) (m : ℕ) → consume_field_value num typ b ≡ some m → m ≤ length b
  pub value_prefix :
      (num typ : ℕ) (b rest : Text) (m : ℕ)
      → consume_field_value num typ b ≡ some m
      → consume_field_value num typ (take m b ++ rest) ≡ some m
  pub value_of_bytes :
      (num : ℕ) (b : Text)
      → consume_field_value num bytes_type b
        ≡ (elim (consume_bytes b) [ none ↦ none | some p ↦ some p.1 ])
  pub value_of_varint :
      (num : ℕ) (b : Text)
      → consume_field_value num varint_type b
        ≡ (elim (consume_varint b) [ none ↦ none | some p ↦ some p.1 ])

-- The errors, by their messages.
pub data Panne : Type 0 where
  etiquette_illisible chemin_vide etiquette_de_session_illisible hote_illisible port_illisible :
      Panne
  champ_illisible champ_absent sous_champ_illisible : ℕ → Panne

-- Go's (value, error) pair. `stuck` is no Go value: the loop ran out of fuel.
pub data Issue {ℓ} (A : Type ℓ) : Type ℓ where
  ok : A → Issue A
  err : Panne → Issue A
  stuck : Issue A

infixl 5 ◌>>=◌
abbrev pub ◌>>=◌ {ℓ κ} : {A : Type ℓ} {B : Type κ} → Issue A → (A → Issue B) → Issue B
ok a >>= f = f a
err e >>= f = err e
stuck >>= f = stuck

-- A read that failed is the error `e`.
abbrev pub lu {ℓ} : {A : Type ℓ} → Panne → Option A → Issue A
lu e none = err e
lu e (some a) = ok a

-- `for reste := msg; len(reste) > 0;` with what the loop has written and what it has seen.
unfoldable pub for_reste {ℓ} :
    {S : Type ℓ}
    → ℕ
    → (Text → Text → S → Issue (Text × Text × S))
    → Text
    → Text
    → S
    → Issue (Text × S)
for_reste fuel body [] out vu = ok (out, vu)
for_reste zero body (b ∷ bs) out vu = stuck
for_reste (suc fuel) body (b ∷ bs) out vu = do
  (reste, out', vu') ← body (b ∷ bs) out vu
  for_reste fuel body reste out' vu'

abbrev pub champ_game_session : ℕ
champ_game_session = 6

abbrev pub champ_hote : ℕ
champ_hote = 8

abbrev pub champ_port : ℕ
champ_port = 9

module _ (w : Wire) where
  -- The default branch of the three loops: the field is copied.
  abbrev pub recopie {ℓ} : {S : Type ℓ} → Panne → ℕ → ℕ → Text → Text → S → Issue (Text × Text × S)
  recopie e num typ reste out vu = do
    m ← lu e (w.consume_field_value num typ reste)
    ok (drop m reste, out ++ (w.tag num typ ++ take m reste), vu)

  unfoldable pub champ_ronde :
      ℕ → (Text → Issue Text) → Text → Text → Bool → Issue (Text × Text × Bool)
  champ_ronde cible muter reste out trouve = do
    (num, typ, n) ← lu etiquette_illisible (w.consume_tag reste)
    let suite = drop n reste
    if num == cible && typ == w.bytes_type
        then (do
          (val, m) ← lu (champ_illisible cible) (w.consume_bytes suite)
          nouveau ← muter val
          ok (drop m suite, out ++ (w.tag num typ ++ w.bytes nouveau), true))
        else recopie (champ_illisible num) num typ suite out trouve

  -- Each round takes a byte at least, so `length msg` rounds are enough.
  unfoldable pub reecrire_champ : Text → ℕ → (Text → Issue Text) → Issue Text
  reecrire_champ msg cible muter = do
    (out, trouve) ← for_reste (length msg) (champ_ronde cible muter) msg [] false
    if trouve then ok out else err (champ_absent cible)

  unfoldable pub chaine_ronde : ℕ → Text → Text → Text → Bool → Issue (Text × Text × Bool)
  chaine_ronde cible val reste out vu = do
    (num, typ, n) ← lu etiquette_illisible (w.consume_tag reste)
    let suite = drop n reste
    if num == cible && typ == w.bytes_type
        then (do
          (_, m) ← lu (champ_illisible cible) (w.consume_bytes suite)
          ok (drop m suite, out ++ (w.tag cible w.bytes_type ++ w.bytes val), true))
        else recopie (champ_illisible num) num typ suite out vu

  unfoldable pub remplacer_chaine : Text → ℕ → Text → Issue Text
  remplacer_chaine msg cible val = do
    (out, vu) ← for_reste (length msg) (chaine_ronde cible val) msg [] false
    ok (if vu then out else out ++ (w.tag cible w.bytes_type ++ w.bytes val))

  unfoldable pub reecrire_chaine : Text → List ℕ → Text → Issue Text
  reecrire_chaine msg [] val = err chemin_vide
  reecrire_chaine msg (cible ∷ []) val = remplacer_chaine msg cible val
  reecrire_chaine msg (cible ∷ suivant ∷ chemin) val =
      reecrire_champ msg cible (λ sous. reecrire_chaine sous (suivant ∷ chemin) val)

  -- vuHote and vuPort
  unfoldable pub hote_port_ronde :
      Text → ℕ → Text → Text → Bool × Bool → Issue (Text × Text × (Bool × Bool))
  hote_port_ronde hote port reste out (vu_hote, vu_port) = do
    (num, typ, n) ← lu etiquette_de_session_illisible (w.consume_tag reste)
    let suite = drop n reste
    if num == champ_hote && typ == w.bytes_type
        then (do
          (_, m) ← lu hote_illisible (w.consume_bytes suite)
          ok (
            drop m suite,
            out ++ (w.tag champ_hote w.bytes_type ++ w.bytes hote),
            (true, vu_port),
          ))
        else if num == champ_port && typ == w.varint_type
        then (do
          (_, m) ← lu port_illisible (w.consume_varint suite)
          ok (
            drop m suite,
            out ++ (w.tag champ_port w.varint_type ++ w.varint port),
            (vu_hote, true),
          ))
        else recopie (sous_champ_illisible num) num typ suite out (vu_hote, vu_port)

  unfoldable pub reecrire_hote_port : Text → Text → ℕ → Issue Text
  reecrire_hote_port gs hote port = do
    (out, vu) ← for_reste (length gs) (hote_port_ronde hote port) gs [] (false, false)
    let avec_hote = if vu.0 then out else out ++ (w.tag champ_hote w.bytes_type ++ w.bytes hote)
    ok (if vu.1 then avec_hote else avec_hote ++ (w.tag champ_port w.varint_type ++ w.varint port))

  unfoldable pub reecrire_adresse_session : Text → Text → ℕ → Issue Text
  reecrire_adresse_session msg hote port =
      reecrire_champ msg champ_game_session (λ gs. reecrire_hote_port gs hote port)
