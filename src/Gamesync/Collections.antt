-- ===== src/Gamesync/Collections.antt =====
-- gamesync.go: docsSousCollection, and which documents it gives.
use splatoon.Base.{
  ◌-◌, ◌≡◌, refl, sym, ap, ◌∙◌, Bool, true, false, not, Bool-cases, Option, none, some, [], ◌∷◌,
  ◌++◌, if◌then◌else◌, ◌==◌, Text, codes, is_empty, text_eq, text_eq_iff, has_prefix, contains,
  length, length-append, drop, Assoc, lookup, insert, lookup-insert, keys, IsMap, Differ, All, inl,
  inr, arith, &&_true, ==_iff, subst,
}
use splatoon.Gamesync.{
  Store, cle_store, trim_right_barre, est_membre, docs_from, docs_sous_collection,
}
use splatoon.Gamesync.Isolation.{docs_skip}
use mathlib.Core.List.{append_assoc}

has_prefix_inv : (s p : Text) → has_prefix s p ≡ true → (y : Text) × (s ≡ p ++ y)
unfolding has_prefix
has_prefix_inv s [] h = (s, refl)
has_prefix_inv [] (b ∷ p) h = cc
has_prefix_inv (a ∷ s) (b ∷ p) h =
    let (same, rest) = &&_true (a == b) (has_prefix s p) h in
    let (y, e) = has_prefix_inv s p rest in (y, λ i. (==_iff a b).0 same i ∷ e i)

has_prefix-append : (p y : Text) → has_prefix (p ++ y) p ≡ true
unfolding has_prefix
has_prefix-append [] y = refl
has_prefix-append (b ∷ p) y = ground (arith, has_prefix-append p y)

drop-append : (p y : Text) → drop (length p) (p ++ y) ≡ y
drop-append [] y = refl
drop-append (c ∷ p) y = drop-append p y

text_eq-append : (p x y : Text) → text_eq (p ++ x) (p ++ y) ≡ text_eq x y
unfolding text_eq
text_eq-append [] x y = refl
text_eq-append (c ∷ p) x y = ground (arith, text_eq-append p x y)

est_membre-append : (p y : Text) → est_membre p (p ++ y) ≡ not (contains y (codes "/"))
unfolding est_membre
est_membre-append p y = rw (has_prefix-append p y, drop-append p y) refl

outside_key : (p x j : Text) → has_prefix j p ≡ false → text_eq j (p ++ x) ≡ false
outside_key p x j h = elim (Bool-cases (text_eq j (p ++ x))) [
  | inl same ↦ cc ((text_eq_iff j (p ++ x)).0 same, has_prefix-append p x)
  | inr differ ↦ differ
]

outside_membre : (p j : Text) → has_prefix j p ≡ false → est_membre p j ≡ false
unfolding est_membre
outside_membre p j h = rw h refl

module _ {ℓ} {V : Type ℓ} where
  lookup-absent : (k : Text) (m : Store V) → All (Differ k) (keys m) → lookup k m ≡ none
  unfolding lookup
  lookup-absent k [] h = refl
  lookup-absent k ((j, d) ∷ m) h =
      ground (arith, lookup-absent k m h.1, h.0, text_eq_iff j k, text_eq_iff k j)

  docs_take :
      (tete base y : Text) (c : Assoc V) (m out : Store V)
      → contains y (codes "/") ≡ false
      → docs_from (tete ++ base) (length tete) (((tete ++ base) ++ y, c) ∷ m) out
        ≡ docs_from (tete ++ base) (length tete) m (insert (base ++ y) c out)
  unfolding docs_from
  docs_take tete base y c m out h =
      let member : est_membre (tete ++ base) ((tete ++ base) ++ y) ≡ true =
        est_membre-append (tete ++ base) y ∙ ap not h in
      let cut : drop (length tete) ((tete ++ base) ++ y) ≡ base ++ y =
        ap (drop (length tete)) (append_assoc tete base y) ∙ drop-append tete (base ++ y) in
      rw (member, cut) refl

  -- What stands under the collection, or else what was there.
  abbrev choix : Bool → Option (Assoc V) → Option (Assoc V) → Option (Assoc V)
  choix true l o = o
  choix false none o = o
  choix false (some c) o = some c

  choix-none : (b : Bool) (o : Option (Assoc V)) → choix b none o ≡ o
  choix-none true o = refl
  choix-none false o = refl

  choix-last : (b : Bool) (l : Option (Assoc V)) → choix b l none ≡ (if b then none else l)
  choix-last true l = refl
  choix-last false none = refl
  choix-last false (some c) = refl

  -- The answer for the document `x` of the collection `base`, behind the name of the game.
  module _ (tete base x : Text) where
    abbrev attendu : Store V → Store V → Option (Assoc V)
    attendu m out =
        choix (contains x (codes "/")) (lookup ((tete ++ base) ++ x) m) (lookup (base ++ x) out)

    lookup-other :
        (j : Text) (d : Assoc V) (m : Store V)
        → text_eq j ((tete ++ base) ++ x) ≡ false
        → lookup ((tete ++ base) ++ x) ((j, d) ∷ m) ≡ lookup ((tete ++ base) ++ x) m
    unfolding lookup
    lookup-other j d m h = rw h refl

    inside :
        (y : Text) (d : Assoc V) (m out : Store V)
        → All (Differ ((tete ++ base) ++ y)) (keys m)
        → contains y (codes "/") ≡ false
        → attendu m (insert (base ++ y) d out) ≡ attendu (((tete ++ base) ++ y, d) ∷ m) out
    unfolding lookup
    inside y d m out fresh h = elim (Bool-cases (text_eq y x)) [
      | inl same ↦
          let is : y ≡ x = (text_eq_iff y x).0 same in
          let absent : lookup ((tete ++ base) ++ x) m ≡ none =
            lookup-absent ((tete ++ base) ++ x) m (rw is at fresh) in
          let plain : contains x (codes "/") ≡ false = rw is at h in
          rw
            (
              plain,
              absent,
              lookup-insert (base ++ y) (base ++ x) d out,
              text_eq-append base y x,
              text_eq-append (tete ++ base) y x,
              same,
            )
            refl
      | inr differ ↦
          rw
            (
              lookup-insert (base ++ y) (base ++ x) d out,
              text_eq-append base y x,
              text_eq-append (tete ++ base) y x,
              differ,
            )
            refl
    ]

    nested :
        (y : Text) (d : Assoc V) (m out : Store V)
        → contains y (codes "/") ≡ true
        → attendu m out ≡ attendu (((tete ++ base) ++ y, d) ∷ m) out
    nested y d m out h = elim (Bool-cases (text_eq y x)) [
      | inl same ↦
          let deep : contains x (codes "/") ≡ true = rw ((text_eq_iff y x).0 same) at h in
          rw deep refl
      | inr differ ↦
          ap (λ l. choix (contains x (codes "/")) l (lookup (base ++ x) out))
            (sym
              (lookup-other ((tete ++ base) ++ y) d m (text_eq-append (tete ++ base) y x ∙ differ)))
    ]

    docs_from-attendu :
        (m out : Store V)
        → IsMap m
        → lookup (base ++ x) (docs_from (tete ++ base) (length tete) m out) ≡ attendu m out
    docs_from-attendu [] out h =
        unfold docs_from lookup in
        sym (choix-none (contains x (codes "/")) (lookup (base ++ x) out))
    docs_from-attendu ((j, d) ∷ m) out h = elim (Bool-cases (has_prefix j (tete ++ base))) [
      | inl member ↦
          let (y, e) = has_prefix_inv j (tete ++ base) member in
          subst
            (λ k.
              lookup (base ++ x) (docs_from (tete ++ base) (length tete) ((k, d) ∷ m) out)
              ≡ attendu ((k, d) ∷ m) out)
            (sym e)
            (elim (Bool-cases (contains y (codes "/"))) [
              | inl deep ↦
                  let not_member : est_membre (tete ++ base) ((tete ++ base) ++ y) ≡ false =
                    est_membre-append (tete ++ base) y ∙ ap not deep in
                  ap (lookup (base ++ x)) (
                    docs_skip (tete ++ base) (length tete) ((tete ++ base) ++ y) d m out not_member)
                  ∙ (docs_from-attendu m out h.1 ∙ nested y d m out deep)
              | inr direct ↦
                  ap (lookup (base ++ x)) (docs_take tete base y d m out direct)
                  ∙ (docs_from-attendu m (insert (base ++ y) d out) h.1
                      ∙ inside y d m out (rw e at h.0) direct)
            ])
      | inr outside ↦
          ap (lookup (base ++ x)) (
            docs_skip (tete ++ base) (length tete) j d m out
              (outside_membre (tete ++ base) j outside))
          ∙ (docs_from-attendu m out h.1
              ∙ ap (λ l. choix (contains x (codes "/")) l (lookup (base ++ x) out))
                  (sym (lookup-other j d m (outside_key (tete ++ base) x j outside))))
    ]

  -- In a store with one entry for a key, docsSousCollection gives at a name under its collection,
  -- slashes at the collection's end aside, the document that the store has for the game under that
  -- name, and nothing where the rest of the name has a slash.
  pub docs_sous_collection-lookup :
      (gsid coll x : Text) (store : Store V)
      → IsMap store
      → let base = trim_right_barre coll ++ codes "/" in
        lookup (base ++ x) (docs_sous_collection gsid coll store)
        ≡ (if contains x (codes "/") then none else lookup (cle_store gsid (base ++ x)) store)
  unfolding docs_sous_collection cle_store
  docs_sous_collection-lookup gsid coll x store h =
      let base : Text = trim_right_barre coll ++ codes "/" in
      elim (Bool-cases (is_empty gsid)) [
        | inl unknown ↦
            let zero_cut : length base - length base ≡ 0 = omega arith in
            rw (unknown, zero_cut)
              (unfold lookup in
                docs_from-attendu [] base x store [] h ∙ choix-last (contains x (codes "/")) _)
        | inr known ↦
            let tete : Text = gsid ++ (0 ∷ []) in
            let joined : (t : Text) → gsid ++ (0 ∷ t) ≡ tete ++ t =
              λ t. sym (append_assoc gsid (0 ∷ []) t) in
            let cut : length (tete ++ base) - length base ≡ length tete =
              omega (arith, length-append tete base) in
            rw (known, joined base, joined (base ++ x), cut)
              (unfold lookup in
                docs_from-attendu tete base x store [] h
                ∙ (choix-last (contains x (codes "/")) _
                    ∙ ap (λ k. if contains x (codes "/") then none else lookup k store)
                        (append_assoc tete base x)))
      ]
