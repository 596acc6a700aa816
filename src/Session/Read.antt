-- ===== src/Session/Read.antt =====
-- session_address_rewrite.go: what a field that protowire reads consists of.
use splatoon.Base.{
  ==_iff, ◌==◌, true, ℕ, zero, suc, ◌<◌, ◌≡◌, refl, Option, none, some, Option-cases, List, [], ◌∷◌,
  length, take, drop, Text, All, inl, inr, arith, ◌⊎◌, OnSome, subst,
}
use splatoon.Session.{Wire}
use mathlib.Core.Path.{Path}
use mathlib.Core.List.{append-nil}
use splatoon.Session.Fields.{Champ, lire_champ, lire, champs, IsChamp, length-prefix, length-drop}

module _ (w : Wire) where
  pub lire_champ-IsChamp :
      (b : Text) (c : Champ) (rest : Text)
      → lire_champ w b ≡ some (c, rest)
      → IsChamp w c × (length rest < length b)
  unfolding lire_champ
  lire_champ-IsChamp b c rest e = elim (Option-cases (w.consume_tag b)) [
    | inl none_read ↦ cc
    | inr ((num, typ, n), read) ↦ elim (Option-cases (w.consume_field_value num typ (drop n b))) [
      | inl no_value ↦ ground arith
      | inr (m, value) ↦
          let (a0, a1, a2, a3, a4) = w.tag_taken b num typ n read in
          let m_le = w.value_taken num typ (drop n b) m value in
          let len = length-prefix m (drop n b) m_le in
          let lu_champ : Champ = record { num = num; typ = typ; contenu = take m (drop n b) } in
          let same : Path (Option (Champ × Text)) (some (lu_champ, drop m (drop n b)))
              (some (c, rest)) =
            ground arith in
          let here : IsChamp w lu_champ = record {
            num_low = a0;
            num_high = a1;
            typ_high = a2;
            reads = λ r. rw len (w.value_prefix num typ (drop n b) r m value);
          } in
          subst (OnSome (λ (p : Champ × Text). IsChamp w p.0 × (length p.1 < length b))) same
            (here, omega (arith, length-drop m (drop n b) m_le, length-drop n b a4))
    ]
  ]

  -- A list of fields that was read begins with a field that was read.
  pub lire_inv :
      (fuel b : ℕ) (bs : Text) (c : Champ) (cs : List Champ)
      → lire w (suc fuel) (b ∷ bs) ≡ some (c ∷ cs)
      → (rest : Text) × (lire_champ w (b ∷ bs) ≡ some (c, rest)) × (lire w fuel rest ≡ some cs)
  unfolding lire
  lire_inv fuel b bs c cs e = elim (Option-cases (lire_champ w (b ∷ bs))) [
    | inl none_read ↦ ground arith
    | inr ((d, rest), read) ↦ elim (Option-cases (lire w fuel rest)) [
      | inl no_rest ↦ ground arith
      | inr (ds, others) ↦ (rest, ground arith, ground arith)
    ]
  ]

  -- With enough fuel, reading fails only at a field that cannot be read.
  pub lire_fail :
      (fuel b : ℕ) (bs : Text) (c : Champ) (rest : Text)
      → lire w (suc fuel) (b ∷ bs) ≡ none
      → lire_champ w (b ∷ bs) ≡ some (c, rest)
      → lire w fuel rest ≡ none
  unfolding lire
  lire_fail fuel b bs c rest e read = elim (Option-cases (lire w fuel rest)) [
    | inl no_rest ↦ no_rest
    | inr (ds, others) ↦ ground arith
  ]

  lire-All : (fuel : ℕ) (b : Text) (cs : List Champ) → lire w fuel b ≡ some cs → All (IsChamp w) cs
  lire-All fuel b [] e = tt
  lire-All zero [] (c ∷ cs) e = unfold lire in ground arith
  lire-All (suc fuel) [] (c ∷ cs) e = unfold lire in ground arith
  lire-All zero (b ∷ bs) (c ∷ cs) e = unfold lire in ground arith
  lire-All (suc fuel) (b ∷ bs) (c ∷ cs) e =
      let (rest, read, others) = lire_inv fuel b bs c cs e in
      ((lire_champ-IsChamp (b ∷ bs) c rest read).0, lire-All fuel rest cs others)

  -- Every field that was read reads back.
  pub champs-IsChamp : (b : Text) (cs : List Champ) → champs w b ≡ some cs → All (IsChamp w) cs
  unfolding champs
  champs-IsChamp b cs e = lire-All (length b) b cs e

  -- What the reader of a field read.
  pub record Lu (b : Text) (c : Champ) (rest : Text) : Type 0 where
    pub etiquette : ℕ
    pub valeur : ℕ
    pub tag_lu : w.consume_tag b ≡ some (c.num, c.typ, etiquette)
    pub valeur_lue : w.consume_field_value c.num c.typ (drop etiquette b) ≡ some valeur
    pub contenu_lu : c.contenu ≡ take valeur (drop etiquette b)
    pub rest_lu : rest ≡ drop valeur (drop etiquette b)

  pub lire_champ_inv :
      (b : Text) (c : Champ) (rest : Text) → lire_champ w b ≡ some (c, rest) → Lu b c rest
  unfolding lire_champ
  lire_champ_inv b c rest e = elim (Option-cases (w.consume_tag b)) [
    | inl none_read ↦ cc
    | inr ((num, typ, n), read) ↦ elim (Option-cases (w.consume_field_value num typ (drop n b))) [
      | inl no_value ↦ ground arith
      | inr (m, value) ↦
          let lu_champ : Champ = record { num = num; typ = typ; contenu = take m (drop n b) } in
          let same : Path (Option (Champ × Text)) (some (lu_champ, drop m (drop n b)))
              (some (c, rest)) =
            ground arith in
          subst (OnSome (λ (p : Champ × Text). Lu b p.0 p.1)) same (record {
            etiquette = n;
            valeur = m;
            tag_lu = read;
            valeur_lue = value;
            contenu_lu = refl;
            rest_lu = refl;
          })
    ]
  ]

  -- What the reader of a field could not read.
  pub lire_champ-none :
      (b : Text)
      → lire_champ w b ≡ none
      → (w.consume_tag b ≡ none)
        ⊎ ((p : ℕ × ℕ × ℕ) × (w.consume_tag b ≡ some p)
            × (w.consume_field_value p.0 p.1 (drop p.2 b) ≡ none))
  unfolding lire_champ
  lire_champ-none b e = elim (Option-cases (w.consume_tag b)) [
    | inl none_read ↦ inl none_read
    | inr ((num, typ, n), read) ↦ elim (Option-cases (w.consume_field_value num typ (drop n b))) [
      | inl no_value ↦ inr ((num, typ, n), read, no_value)
      | inr (m, value) ↦ ground arith
    ]
  ]

  pub bytes_inv :
      (num : ℕ) (b : Text) (m : ℕ)
      → w.consume_field_value num w.bytes_type b ≡ some m
      → (v : Text) × (w.consume_bytes b ≡ some (v, m)) × (w.consume_bytes (take m b) ≡ some (v, m))
  bytes_inv num b m e = elim (Option-cases (w.consume_bytes b)) [
    | inl no_bytes ↦ ground (arith, w.value_of_bytes num b)
    | inr ((v, k), read) ↦
        let same : k ≡ m = ground (arith, w.value_of_bytes num b) in
        let there : w.consume_bytes b ≡ some (v, m) = rw (← same) read in
        (
          v,
          there,
          subst (λ t. w.consume_bytes t ≡ some (v, m)) (append-nil (take m b))
              (w.bytes_prefix b [] v m there),
        )
  ]

  pub bytes_of :
      (b : Text) (c : Champ) (rest : Text) (r : Lu b c rest)
      → (c.typ == w.bytes_type) ≡ true
      → (v : Text) × (w.consume_bytes (drop r.etiquette b) ≡ some (v, r.valeur))
        × (w.consume_bytes (take r.valeur (drop r.etiquette b)) ≡ some (v, r.valeur))
  bytes_of b c rest r t =
      let same = (==_iff c.typ w.bytes_type).0 t in
      bytes_inv c.num (drop r.etiquette b) r.valeur (rw same at r.valeur_lue)

  pub no_bytes_of :
      (num typ : ℕ) (b : Text)
      → w.consume_field_value num typ b ≡ none
      → (typ == w.bytes_type) ≡ true
      → w.consume_bytes b ≡ none
  no_bytes_of num typ b e t =
      let same = (==_iff typ w.bytes_type).0 t in
      elim (Option-cases (w.consume_bytes b)) [
        | inl no_bytes ↦ no_bytes
        | inr (p, read) ↦ ground (arith, w.value_of_bytes num b)
      ]

  -- A field of bytes has its bytes.
  pub IsChamp-bytes :
      (c : Champ)
      → IsChamp w c
      → (c.typ == w.bytes_type) ≡ true
      → (v : Text) × (w.consume_bytes c.contenu ≡ some (v, length c.contenu))
  IsChamp-bytes c h t =
      let same = (==_iff c.typ w.bytes_type).0 t in
      let whole : w.consume_field_value c.num w.bytes_type c.contenu ≡ some (length c.contenu) =
        rw (append-nil, same) at (h.reads []) in
      let (v, read, _) = bytes_inv c.num c.contenu (length c.contenu) whole in (v, read)

  pub varint_of :
      (b : Text) (c : Champ) (m : ℕ)
      → w.consume_field_value c.num c.typ b ≡ some m
      → (c.typ == w.varint_type) ≡ true
      → (v : ℕ) × (w.consume_varint b ≡ some (v, m))
  varint_of b c m e t =
      let same = (==_iff c.typ w.varint_type).0 t in
      let here = rw same at e in
      elim (Option-cases (w.consume_varint b)) [
        | inl no_varint ↦ ground (arith, w.value_of_varint c.num b)
        | inr ((v, k), read) ↦
            let is : k ≡ m = ground (arith, w.value_of_varint c.num b) in (v, rw (← is) read)
      ]

  pub no_varint_of :
      (num typ : ℕ) (b : Text)
      → w.consume_field_value num typ b ≡ none
      → (typ == w.varint_type) ≡ true
      → w.consume_varint b ≡ none
  no_varint_of num typ b e t =
      let same = (==_iff typ w.varint_type).0 t in
      elim (Option-cases (w.consume_varint b)) [
        | inl no_varint ↦ no_varint
        | inr (p, read) ↦ ground (arith, w.value_of_varint num b)
      ]
