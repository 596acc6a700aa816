-- ===== src/Gamesync/Isolation.antt =====
-- gamesync.go: the documents of one game, and the writes in another.
use splatoon.Base.{
  ℕ, ◌≡◌, refl, sym, ◌∙◌, false, Bool-cases, List, [], ◌∷◌, ◌++◌, ◌==◌, ℤ, Text, is_empty, text_eq,
  text_eq_iff, has_prefix, Assoc, insert, erase, All, inl, inr, arith,
}
use splatoon.Gamesync.{
  WriteOperation, update_document, merge_document, transform_document, delete_document,
  sans_operation, Store, Magasin, cle_store, est_membre, docs_from, docs_sous_collection, ecrire,
  apply_writes_to_store,
}

-- The identifier of a game: it is not empty, and has no NUL.
pub record IsGsid (gsid : Text) : Type 0 where
  pub named : is_empty gsid ≡ false
  pub plain : All (λ c. (c == 0) ≡ false) gsid

prefix_apart :
    (a b x y : Text)
    → All (λ c. (c == 0) ≡ false) a
    → All (λ c. (c == 0) ≡ false) b
    → text_eq a b ≡ false
    → has_prefix (a ++ (0 ∷ x)) (b ++ (0 ∷ y)) ≡ false
unfolding has_prefix text_eq
prefix_apart [] [] x y ha hb d = cc
prefix_apart [] (c ∷ b) x y ha hb d = ground (arith, hb.0)
prefix_apart (c ∷ a) [] x y ha hb d = ground (arith, ha.0)
prefix_apart (c ∷ a) (e ∷ b) x y ha hb d = elim (Bool-cases (c == e)) [
  | inl same ↦ rw same (prefix_apart a b x y ha.1 hb.1 (rw same at d))
  | inr differ ↦ rw differ refl
]

module _ {ℓ} {V : Type ℓ} where
  pub docs_skip :
      (prefixe : Text) (coupe : ℕ) (k : Text) (c : Assoc V) (m out : Store V)
      → est_membre prefixe k ≡ false
      → docs_from prefixe coupe ((k, c) ∷ m) out ≡ docs_from prefixe coupe m out
  unfolding docs_from
  docs_skip prefixe coupe k c m out h = rw h refl

  -- A key outside the prefix is not seen.
  docs_from-insert :
      (prefixe : Text) (coupe : ℕ) (k : Text) (c : Assoc V) (m out : Store V)
      → est_membre prefixe k ≡ false
      → docs_from prefixe coupe (insert k c m) out ≡ docs_from prefixe coupe m out
  unfolding docs_from insert
  docs_from-insert prefixe coupe k c [] out h = rw h refl
  docs_from-insert prefixe coupe k c ((j, d) ∷ m) out h = elim (Bool-cases (text_eq j k)) [
    | inl same ↦
        let there : est_membre prefixe j ≡ false = rw ((text_eq_iff j k).0 same) h in
        rw same
          (docs_skip prefixe coupe j c m out there ∙ sym (docs_skip prefixe coupe j d m out there))
    | inr differ ↦ rw differ (docs_from-insert prefixe coupe k c m _ h)
  ]

  docs_from-erase :
      (prefixe : Text) (coupe : ℕ) (k : Text) (m out : Store V)
      → est_membre prefixe k ≡ false
      → docs_from prefixe coupe (erase k m) out ≡ docs_from prefixe coupe m out
  unfolding docs_from erase
  docs_from-erase prefixe coupe k [] out h = refl
  docs_from-erase prefixe coupe k ((j, d) ∷ m) out h = elim (Bool-cases (text_eq j k)) [
    | inl same ↦
        let there : est_membre prefixe j ≡ false = rw ((text_eq_iff j k).0 same) h in
        rw (same, there) (docs_from-erase prefixe coupe k m out h)
    | inr differ ↦ rw differ (docs_from-erase prefixe coupe k m _ h)
  ]

  module _ (entier : ℤ → V) (a b coll : Text) (ha : IsGsid a) (hb : IsGsid b)
      (apart : text_eq a b ≡ false) where
    other_game : (nom base : Text) → est_membre (cle_store b base) (cle_store a nom) ≡ false
    unfolding est_membre cle_store
    other_game nom base =
        rw (ha.named, hb.named, prefix_apart a b nom base ha.plain hb.plain apart) refl

    ecrire-apart :
        (op : WriteOperation V) (g : Magasin V)
        → docs_sous_collection b coll (ecrire entier a op g).store
          ≡ docs_sous_collection b coll g.store
    unfolding ecrire docs_sous_collection
    ecrire-apart (update_document nom champs) g = elim (Bool-cases (is_empty nom)) [
      | inl none_named ↦ rw none_named refl
      | inr named ↦
          rw named (docs_from-insert _ _ (cle_store a nom) _ g.store [] (other_game nom _))
    ]
    ecrire-apart (merge_document nom champs) g = elim (Bool-cases (is_empty nom)) [
      | inl none_named ↦ rw none_named refl
      | inr named ↦
          rw named (docs_from-insert _ _ (cle_store a nom) _ g.store [] (other_game nom _))
    ]
    ecrire-apart (transform_document nom fts) g = elim (Bool-cases (is_empty nom)) [
      | inl none_named ↦ rw none_named refl
      | inr named ↦
          rw named (docs_from-insert _ _ (cle_store a nom) _ g.store [] (other_game nom _))
    ]
    ecrire-apart (delete_document nom) g = elim (Bool-cases (is_empty nom)) [
      | inl none_named ↦ rw none_named refl
      | inr named ↦ rw named (docs_from-erase _ _ (cle_store a nom) g.store [] (other_game nom _))
    ]
    ecrire-apart sans_operation g = refl

    -- For two different identifiers of games that are not empty and have no NUL: whatever operations
    -- applyWritesToStore applies under the one, docsSousCollection gives under the other what it
    -- gave before, on every collection.
    pub apply_writes_to_store-apart :
        (ops : List (WriteOperation V)) (g : Magasin V)
        → docs_sous_collection b coll (apply_writes_to_store entier a ops g).store
          ≡ docs_sous_collection b coll g.store
    unfolding apply_writes_to_store
    apply_writes_to_store-apart [] g = refl
    apply_writes_to_store-apart (op ∷ ops) g =
        apply_writes_to_store-apart ops (ecrire entier a op g) ∙ ecrire-apart op g
