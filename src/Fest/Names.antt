-- ===== src/Fest/Names.antt =====
-- fest_entries.go, fest_genere.go: the names of the entries, and the stages of the tricolore matches.
use splatoon.Base.{
  ℕ, zero, suc, ◌+◌, ◌%◌, ◌<◌, ◌≡◌, ◌≢◌, refl, sym, ap, ◌∙◌, true, false, Bool-cases, if◌then◌else◌,
  leb, ◌==◌, List, [], ◌∷◌, ◌++◌, Text, codes, length, get_or, All, AllPairs, inl, inr, arith, pos,
  any, text_eq, ltb, ltb→lt,
}
use splatoon.Fest.Entries.{
  segments, segments_from, est_collection, fest_id_from, fest_id_du_chemin, nom_entree_fest,
}
use splatoon.Fest.{unix}
use splatoon.Fest.Maison.{rangs_tricolores, stages_tricolores_maison}
use splatoon.Rotation.{melange, stages_connus}
use mathlib.Core.List.{append_assoc, append-nil}

-- A text with no slash, before a slash.
abbrev pub SansBarre : Text → Type 0
SansBarre t = All (λ c. (c == b'/') ≡ false) t

segments_from-append :
    (acc t r : Text)
    → segments_from acc (t ++ (b'/' ∷ r)) ≡ segments_from acc t ++ segments_from [] r
unfolding segments_from
segments_from-append acc [] r = refl
segments_from-append acc (c ∷ t) r = elim (Bool-cases (c == b'/')) [
  | inl slash ↦ rw slash (ap (λ l. acc ∷ l) (segments_from-append [] t r))
  | inr plain ↦ rw plain (segments_from-append (acc ++ (c ∷ [])) t r)
]

segments_from-plain : (acc t : Text) → SansBarre t → segments_from acc t ≡ (acc ++ t) ∷ []
unfolding segments_from
segments_from-plain acc [] h = rw append-nil refl
segments_from-plain acc (c ∷ t) h =
    rw h.0 (segments_from-plain (acc ++ (c ∷ [])) t h.1 ∙ rw append_assoc refl)

fests_segments :
    (fest_id r : Text)
    → SansBarre fest_id
    → segments_from [] (codes "fests/" ++ (fest_id ++ (b'/' ∷ r)))
      ≡ codes "fests" ∷ fest_id ∷ segments_from [] r
unfolding segments_from
fests_segments fest_id r plain =
    ap (λ l. codes "fests" ∷ l)
      (segments_from-append [] fest_id r
        ∙ ap (λ l. l ++ segments_from [] r) (segments_from-plain [] fest_id plain))

fests_known : est_collection (codes "fests") ≡ true
unfolding text_eq
fests_known = refl

All-get_or : (P : ℕ → Type 0) (xs : List ℕ) (i : ℕ) → All P xs → i < length xs → P (get_or xs i 0)
All-get_or P [] i h l = absurd (omega arith)
All-get_or P (x ∷ xs) zero h l = h.0
All-get_or P (x ∷ xs) (suc i) h l = All-get_or P xs i h.1 (omega arith)

any-get_or : (xs : List ℕ) (i : ℕ) → i < length xs → any (λ x. x == get_or xs i 0) xs ≡ true
any-get_or [] i l = absurd (omega arith)
any-get_or (x ∷ xs) zero l = ground arith
any-get_or (x ∷ xs) (suc i) l = ground (arith, any-get_or xs i (omega arith))

-- Segments that name no collection are passed over.
fest_id_from-after :
    (segs : List Text) (s t : Text) (rest : List Text)
    → All (λ x. est_collection x ≡ false) segs
    → est_collection s ≡ true
    → fest_id_from (segs ++ (s ∷ t ∷ rest)) ≡ t
unfolding fest_id_from
fest_id_from-after [] s t rest h e = rw e refl
fest_id_from-after (x ∷ []) s t rest h e = rw (h.0, e) refl
fest_id_from-after (x ∷ y ∷ segs) s t rest h e =
    rw h.0 (fest_id_from-after (y ∷ segs) s t rest h.1 e)

-- Where no segment of the tenant names a collection and the identifier of the fest has no slash,
-- festIDDuChemin reads the identifier back from the name that nomEntreeFest makes of it.
pub fest_id_du_chemin-nom_entree_fest :
    (tenant fest_id uid : Text)
    → All (λ s. est_collection s ≡ false) (segments tenant)
    → SansBarre fest_id
    → fest_id_du_chemin (nom_entree_fest tenant fest_id uid) ≡ fest_id
unfolding fest_id_du_chemin nom_entree_fest
fest_id_du_chemin-nom_entree_fest tenant fest_id uid h plain =
    let tail : Text = fest_id ++ (codes "/entries/" ++ uid) in
    let cut =
      segments_from-append [] tenant (codes "fests/" ++ tail)
      ∙ ap (λ l. segments tenant ++ l) (fests_segments fest_id (codes "entries/" ++ uid) plain) in
    rw cut (fest_id_from-after (segments tenant) (codes "fests") fest_id _ h fests_known)

-- The two positions differ, and the table has them.
rangs_apart :
    (m n : ℕ)
    → let a = m % 25 in
      let b = n % 24 in
      (a < 25) × ((if leb a b then b + 1 else b) < 25) × (a ≢ (if leb a b then b + 1 else b))
rangs_apart m n = (omega arith, ground arith, λ e. ground arith)

get_or_pair :
    (xs : List ℕ) (i j : ℕ)
    → AllPairs (λ x y. x ≢ y) xs
    → i < j
    → j < length xs
    → get_or xs i 0 ≢ get_or xs j 0
get_or_pair [] i j h l b = absurd (omega arith)
get_or_pair (x ∷ xs) i zero h l b = absurd (omega arith)
get_or_pair (x ∷ xs) zero (suc j) h l b = All-get_or (λ y. x ≢ y) xs j h.0 (omega arith)
get_or_pair (x ∷ xs) (suc i) (suc j) h l b = get_or_pair xs i j h.1 (omega arith) (omega arith)

stages_connus_apart : AllPairs (λ x y. x ≢ y) stages_connus
stages_connus_apart = omega arith

above_lem : (a b : ℕ) → a ≢ b → ltb a b ≡ false → b < a
above_lem a b h e = ground arith

stages_differ :
    (a b : ℕ) → a < 25 → b < 25 → a ≢ b → get_or stages_connus a 0 ≢ get_or stages_connus b 0
stages_differ a b la lb h = elim (Bool-cases (ltb a b)) [
  | inl below ↦ get_or_pair stages_connus a b stages_connus_apart (ltb→lt a b below) lb
  | inr above ↦
      λ e. get_or_pair stages_connus b a stages_connus_apart (above_lem a b h above) la (sym e)
]

pub stages_tricolores_maison_lem :
    (debut : ℕ)
    → (s : ℕ) × (t : ℕ) × (stages_tricolores_maison debut ≡ s ∷ t ∷ [])
      × (s ≢ t)
      × (any (λ x. x == s) stages_connus ≡ true)
      × (any (λ x. x == t) stages_connus ≡ true)
unfolding stages_tricolores_maison rangs_tricolores
stages_tricolores_maison_lem debut =
    let a : ℕ = (rangs_tricolores debut).0 in
    let b : ℕ = (rangs_tricolores debut).1 in
    let (low_a, low_b, apart) =
      rangs_apart (melange (pos (unix debut)) 0x7E57) (melange (pos (unix debut)) 0xF00D) in
    (
      get_or stages_connus a 0,
      get_or stages_connus b 0,
      refl,
      stages_differ a b low_a low_b apart,
      any-get_or stages_connus a low_a,
      any-get_or stages_connus b low_b,
    )
