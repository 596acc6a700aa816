-- ===== src/Fest/Entries.antt =====
-- fest_entries.go, fest_votes.go: the entries of the players to a Splatfest, and the count of the votes.
use splatoon.Base.{
  ℕ, Bool, true, not, ◌&&◌, ◌||◌, Option, none, some, List, [], ◌∷◌, ◌++◌, if◌then◌else◌, ◌==◌,
  Text, codes, is_empty, text_eq, any, Assoc, lookup, insert,
}
use splatoon.Fest.Maison.{npn_tenant}

pub record EntreeFest : Type 0 where
  pub equipe : Text
  pub region : Text
  pub pid : ℕ
  pub vote : ℕ

-- entreesFest, with the folder and the file it is saved to: what reading and decoding the file gives.
pub record EntreesFest : Type 0 where
  pub m : Assoc EntreeFest
  pub charge : Bool
  pub dossier : Bool
  pub fichier : Option (Assoc EntreeFest)

-- What a call brings: the flag, the identity of the context, the clock, and whether the disk accepts
-- the two operations of a save.
pub record Appel : Type 0 where
  pub festequipes : Bool
  pub uid : Text
  pub tenant : Text
  pub pid : ℕ
  pub maintenant : ℕ
  pub disque : Bool

pub record FestEntry : Type 0 where
  pub name : Text
  pub fest_team : Text
  pub fest_region : Text

pub data Reponse : Type 0 where
  unimplemented invalid_argument not_found : Reponse
  entree : FestEntry → Reponse

unfoldable pub charger_entrees_fest_locked : EntreesFest → EntreesFest
charger_entrees_fest_locked s = if s.charge then s else (elim s.fichier [
  | none ↦ record s { charge = true }
  | some f ↦ record s { m = f; charge = true }
])

-- The file is written beside its place, in the folder as it is, and then moved.
unfoldable pub enregistrer_entrees_fest_locked : Bool → EntreesFest → EntreesFest
enregistrer_entrees_fest_locked disque s =
    if s.dossier && disque then record s { fichier = some s.m } else s

-- strings.Split(nom, "/")
unfoldable pub segments_from : Text → Text → List Text
segments_from acc [] = acc ∷ []
segments_from acc (c ∷ s) =
    let rest = segments_from (if c == b'/' then [] else acc ++ (c ∷ [])) s in
    if c == b'/' then acc ∷ rest else rest

abbrev pub segments : Text → List Text
segments nom = segments_from [] nom

abbrev pub collections_de_fete : List Text
collections_de_fete = codes "fests" ∷ codes "festResults" ∷ codes "festSchedules" ∷ []

abbrev pub est_collection : Text → Bool
est_collection s = any (λ c. text_eq s c) collections_de_fete

-- The segment after the first that names a collection and is not the last.
unfoldable pub fest_id_from : List Text → Text
fest_id_from [] = []
fest_id_from (s ∷ []) = []
fest_id_from (s ∷ t ∷ seg) =
    let rest = fest_id_from (t ∷ seg) in if est_collection s then t else rest

unfoldable pub fest_id_du_chemin : Text → Text
unfolding fest_id_from segments_from
fest_id_du_chemin nom = fest_id_from (segments nom)

unfoldable pub nom_entree_fest : Text → Text → Text → Text
nom_entree_fest tenant fest_id uid =
    tenant ++ (codes "/fests/" ++ (fest_id ++ (codes "/entries/" ++ uid)))

abbrev pub cle : Text → Text → Text
cle fest_id uid = fest_id ++ (b'/' ∷ uid)

abbrev pub locataire : Appel → Text
locataire a = if is_empty a.tenant then npn_tenant else a.tenant

unfoldable pub get_fest_entry : Appel → Text → EntreesFest → Reponse × EntreesFest
unfolding fest_id_du_chemin charger_entrees_fest_locked lookup nom_entree_fest
get_fest_entry a nom s =
    let fest_id = fest_id_du_chemin nom in
    if not a.festequipes
    then (unimplemented, s)
    else if is_empty fest_id || is_empty a.uid
    then (invalid_argument, s)
    else let s' = charger_entrees_fest_locked s in
      elim (lookup (cle fest_id a.uid) s'.m) [
        | none ↦ (not_found, s')
        | some e ↦ (
          entree (record {
            name = nom_entree_fest (locataire a) fest_id a.uid;
            fest_team = e.equipe;
            fest_region = e.region;
          }),
          s',
        )
      ]

-- The entry of a caller who has none yet, and the save.
unfoldable pub inscrire : Appel → Text → Text → Text → EntreesFest → EntreesFest
unfolding insert enregistrer_entrees_fest_locked
inscrire a k equipe region s = enregistrer_entrees_fest_locked a.disque (record s {
  m = insert k (record { equipe = equipe; region = region; pid = a.pid; vote = a.maintenant }) s.m;
})

unfoldable pub create_fest_entry : Appel → Text → Text → Text → EntreesFest → Reponse × EntreesFest
unfolding fest_id_du_chemin charger_entrees_fest_locked lookup inscrire nom_entree_fest
create_fest_entry a parent equipe region s =
    let fest_id = fest_id_du_chemin parent in
    if not a.festequipes
    then (unimplemented, s)
    else if is_empty fest_id || is_empty a.uid
    then (invalid_argument, s)
    else if is_empty equipe
    then (invalid_argument, s)
    else let s' = charger_entrees_fest_locked s in
      let name = nom_entree_fest (locataire a) fest_id a.uid in
      elim (lookup (cle fest_id a.uid) s'.m) [
        | some deja ↦ (
          entree (record { name = name; fest_team = deja.equipe; fest_region = deja.region }),
          s',
        )
        | none ↦ (
          entree (record { name = name; fest_team = equipe; fest_region = region }),
          inscrire a (cle fest_id a.uid) equipe region s',
        )
      ]

-- campDuJoueur
unfoldable pub camp_du_joueur : Text → Text → EntreesFest → Text × EntreesFest
unfolding charger_entrees_fest_locked lookup
camp_du_joueur fest_id uid s =
    let s' = charger_entrees_fest_locked s in
    (elim (lookup (cle fest_id uid) s'.m) [ some e ↦ e.equipe | none ↦ [] ], s')
