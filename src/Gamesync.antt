-- ===== src/Gamesync.antt =====
-- gamesync.go: the store of documents that the consoles of a game share.
pub mod Isolation
pub mod Collections
pub mod Streams
pub mod Departure
pub mod Examples
use splatoon.Base.{
  ℕ, zero, suc, ◌+◌, ◌-◌, ◌%◌, ◌^◌, ◌≡◌, Bool, true, false, not, ◌&&◌, ◌||◌, Option, none, some,
  List, [], ◌∷◌, ◌++◌, if◌then◌else◌, ◌==◌, ℤ, pos, Text, codes, is_empty, text_eq, has_prefix,
  contains, length, drop, Assoc, lookup, insert, erase,
}
use splatoon.Rotation.{int64}

-- The kind of a FieldTransform. REQUEST_TIME comes with the reading of the clock.
pub data Transform {ℓ} (V : Type ℓ) : Type ℓ where
  increment maximum minimum request_time : V → Transform V
  load_global_value store_global_value clear_global_value : Text → Transform V
  autre : Transform V

-- WriteOperation: a document by its name and its fields, or a name alone.
pub data WriteOperation {ℓ} (V : Type ℓ) : Type ℓ where
  update_document merge_document : Text → Assoc V → WriteOperation V
  transform_document : Text → List (Text × Transform V) → WriteOperation V
  delete_document : Text → WriteOperation V
  sans_operation : WriteOperation V

-- A document lies under its game, and a NUL stands between the two names.
unfoldable pub cle_store : Text → Text → Text
cle_store gsid nom = if is_empty gsid then nom else gsid ++ (0 ∷ nom)

-- The fields of `src` over those of `dst`.
unfoldable pub merge_fields {ℓ} : {V : Type ℓ} → Assoc V → Assoc V → Assoc V
unfolding insert
merge_fields dst [] = dst
merge_fields dst ((k, v) ∷ src) = merge_fields (insert k v dst) src

-- strings.TrimRight(s, "/")
unfoldable pub trim_right_barre : Text → Text
trim_right_barre [] = []
trim_right_barre (c ∷ s) =
    let r = trim_right_barre s in if is_empty r && c == b'/' then [] else c ∷ r

abbrev pub Store {ℓ} : Type ℓ → Type ℓ
Store V = Assoc (Assoc V)

-- The store, and the sequence of the values that the server gives.
pub record Magasin {ℓ} (V : Type ℓ) : Type ℓ where
  pub store : Store V
  pub seq : ℕ

-- The document lies directly under the collection.
unfoldable pub est_membre : Text → Text → Bool
unfolding has_prefix contains
est_membre prefixe nom =
    has_prefix nom prefixe && not (contains (drop (length prefixe) nom) (codes "/"))

module _ {ℓ} {V : Type ℓ} where
  -- g.store[k], where a missing document has no fields
  abbrev pub champs_de : Text → Store V → Assoc V
  champs_de k store = elim (lookup k store) [ none ↦ [] | some c ↦ c ]

  -- gsGlobalSeq is an int64, kept here as its 64 bits.
  module _ (entier : ℤ → V) where
    abbrev pub suivant : ℕ → V × ℕ
    suivant seq = let n = (seq + 1) % 2 ^ 64 in (entier (int64 n), n)

    unfoldable pub transform_result_value : Transform V → ℕ → V × ℕ
    transform_result_value (increment v) seq = (v, seq)
    transform_result_value (maximum v) seq = (v, seq)
    transform_result_value (minimum v) seq = (v, seq)
    transform_result_value (request_time v) seq = (v, seq)
    transform_result_value (load_global_value nom) seq = suivant seq
    transform_result_value (store_global_value nom) seq = suivant seq
    transform_result_value (clear_global_value nom) seq =
        if is_empty nom then suivant seq else (entier (pos 0), seq)
    transform_result_value autre seq = suivant seq

    unfoldable pub transformer : List (Text × Transform V) → Assoc V → ℕ → Assoc V × ℕ
    unfolding transform_result_value insert
    transformer [] cur seq = (cur, seq)
    transformer ((fp, ft) ∷ fts) cur seq =
        let r = transform_result_value ft seq in
        let next : Assoc V × ℕ = if is_empty fp then (cur, seq) else (insert fp r.0 cur, r.1) in
        transformer fts next.0 next.1

    unfoldable pub ecrire : Text → WriteOperation V → Magasin V → Magasin V
    unfolding cle_store merge_fields lookup insert erase transformer
    ecrire gsid (update_document nom champs) g =
        let k = cle_store gsid nom in
        if is_empty nom
        then g
        else record g { store = insert k (merge_fields (champs_de k g.store) champs) g.store }
    ecrire gsid (merge_document nom champs) g =
        let k = cle_store gsid nom in
        if is_empty nom
        then g
        else record g { store = insert k (merge_fields (champs_de k g.store) champs) g.store }
    ecrire gsid (transform_document nom fts) g =
        let k = cle_store gsid nom in
        let r = transformer fts (champs_de k g.store) g.seq in
        if is_empty nom then g else record { store = insert k r.0 g.store; seq = r.1 }
    ecrire gsid (delete_document nom) g =
        if is_empty nom then g else record g { store = erase (cle_store gsid nom) g.store }
    ecrire gsid sans_operation g = g

    unfoldable pub apply_writes_to_store : Text → List (WriteOperation V) → Magasin V → Magasin V
    unfolding ecrire
    apply_writes_to_store gsid [] g = g
    apply_writes_to_store gsid (op ∷ ops) g = apply_writes_to_store gsid ops (ecrire gsid op g)

  unfoldable pub docs_from : Text → ℕ → Store V → Store V → Store V
  unfolding est_membre insert
  docs_from prefixe coupe [] out = out
  docs_from prefixe coupe ((nom, champs) ∷ store) out =
      docs_from prefixe coupe store
        (if est_membre prefixe nom then insert (drop coupe nom) champs out else out)

  unfoldable pub docs_sous_collection : Text → Text → Store V → Store V
  unfolding cle_store trim_right_barre docs_from
  docs_sous_collection gsid coll store =
      let base = trim_right_barre coll ++ codes "/" in
      let prefixe = cle_store gsid base in docs_from prefixe (length prefixe - length base) store []
