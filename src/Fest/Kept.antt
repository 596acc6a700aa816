-- ===== src/Fest/Kept.antt =====
-- fest_entries.go: the calls and the restarts that the entries go through, and the entry at a key.
use splatoon.Base.{
  ◌≡◌, refl, Bool, true, false, not, ◌&&◌, ◌||◌, Bool-cases, Option, none, some, Option-cases, List,
  [], ◌∷◌, Text, is_empty, text_eq, text_eq_iff, Assoc, lookup, insert, lookup-insert, inl, inr,
}
use splatoon.Fest.Entries.{
  EntreeFest, EntreesFest, Appel, charger_entrees_fest_locked, enregistrer_entrees_fest_locked,
  fest_id_du_chemin, cle, get_fest_entry, inscrire, create_fest_entry,
}

-- What happens to the entries: a call, or a restart of the server, which keeps only the disk.
pub data Evenement : Type 0 where
  lecture : Appel → Text → Evenement
  inscription : Appel → Text → Text → Text → Evenement
  redemarrage : Evenement

unfoldable pub executer : Evenement → EntreesFest → EntreesFest
executer (lecture a nom) s = (get_fest_entry a nom s).1
executer (inscription a parent equipe region) s = (create_fest_entry a parent equipe region s).1
executer redemarrage s = record s { m = []; charge = false }

unfoldable pub executer_tous : List Evenement → EntreesFest → EntreesFest
executer_tous [] s = s
executer_tous (e ∷ es) s = executer_tous es (executer e s)

-- The entries in the memory once they are loaded, and on the disk.
abbrev pub vues : EntreesFest → Assoc EntreeFest
vues s = (charger_entrees_fest_locked s).m

abbrev pub contenu : Option (Assoc EntreeFest) → Assoc EntreeFest
contenu none = []
contenu (some f) = f

-- The entry stands at the key in both.
pub record Inscrit (k : Text) (e : EntreeFest) (s : EntreesFest) : Type 0 where
  pub en_memoire : lookup k (vues s) ≡ some e
  pub sur_disque : lookup k (contenu s.fichier) ≡ some e

pub charger_loaded : (s : EntreesFest) → (charger_entrees_fest_locked s).charge ≡ true
unfolding charger_entrees_fest_locked
charger_loaded s = elim (Bool-cases s.charge) [
  | inl yes_loaded ↦ rw yes_loaded refl
  | inr not_loaded ↦ elim (Option-cases s.fichier) [
    | inl no_file ↦ rw (not_loaded, no_file) refl
    | inr (f, file) ↦ rw (not_loaded, file) refl
  ]
]

charger_file : (s : EntreesFest) → (charger_entrees_fest_locked s).fichier ≡ s.fichier
unfolding charger_entrees_fest_locked
charger_file s = elim (Bool-cases s.charge) [
  | inl yes_loaded ↦ rw yes_loaded refl
  | inr not_loaded ↦ elim (Option-cases s.fichier) [
    | inl no_file ↦ rw (not_loaded, no_file) no_file
    | inr (f, file) ↦ rw (not_loaded, file) file
  ]
]

pub vues-loaded : (s : EntreesFest) → s.charge ≡ true → vues s ≡ s.m
unfolding charger_entrees_fest_locked
vues-loaded s h = rw h refl

module _ (k : Text) (e : EntreeFest) where
  pub charger-Inscrit :
      (s : EntreesFest) → Inscrit k e s → Inscrit k e (charger_entrees_fest_locked s)
  charger-Inscrit s h = record {
    en_memoire = rw (vues-loaded (charger_entrees_fest_locked s) (charger_loaded s)) h.en_memoire;
    sur_disque = rw (charger_file s) h.sur_disque;
  }

  -- An entry at another key, which was free, leaves this one.
  insert-kept :
      (j : Text) (x : EntreeFest) (m : Assoc EntreeFest)
      → lookup j m ≡ none
      → lookup k m ≡ some e
      → lookup k (insert j x m) ≡ some e
  insert-kept j x m free here = elim (Bool-cases (text_eq j k)) [
    | inl same ↦ cc ((text_eq_iff j k).0 same)
    | inr differ ↦ rw (lookup-insert j k x m, differ) here
  ]

  pub loaded_here :
      (m : Assoc EntreeFest) (c d : Bool) (f : Option (Assoc EntreeFest))
      → c ≡ true
      → lookup k m ≡ some e
      → lookup k (contenu f) ≡ some e
      → Inscrit k e (record { m = m; charge = c; dossier = d; fichier = f })
  loaded_here m c d f loaded here there = record {
    en_memoire =
        rw (vues-loaded (record { m = m; charge = c; dossier = d; fichier = f }) loaded) here;
    sur_disque = there;
  }

  inscrire-Inscrit :
      (a : Appel) (j equipe region : Text) (s : EntreesFest)
      → lookup j s.m ≡ none
      → s.charge ≡ true
      → Inscrit k e s
      → Inscrit k e (inscrire a j equipe region s)
  unfolding inscrire enregistrer_entrees_fest_locked
  inscrire-Inscrit a j equipe region s free loaded h =
      let x : EntreeFest = record {
        equipe = equipe;
        region = region;
        pid = a.pid;
        vote = a.maintenant;
      } in
      let kept = insert-kept j x s.m free (rw (vues-loaded s loaded) at h.en_memoire) in
      elim (Bool-cases (s.dossier && a.disque)) [
        | inl writes ↦ rw writes (loaded_here _ s.charge s.dossier _ loaded kept kept)
        | inr fails ↦ rw fails (loaded_here _ s.charge s.dossier _ loaded kept h.sur_disque)
      ]

  get_fest_entry-Inscrit :
      (a : Appel) (nom : Text) (s : EntreesFest)
      → Inscrit k e s
      → Inscrit k e (get_fest_entry a nom s).1
  unfolding get_fest_entry
  get_fest_entry-Inscrit a nom s h = elim (Bool-cases (not a.festequipes)) [
    | inl off ↦ rw off h
    | inr on ↦ elim (Bool-cases (is_empty (fest_id_du_chemin nom) || is_empty a.uid)) [
      | inl bad ↦ rw (on, bad) h
      | inr good ↦
          elim (Option-cases
            (lookup (cle (fest_id_du_chemin nom) a.uid) (charger_entrees_fest_locked s).m)) [
              | inl free ↦ rw (on, good, free) (charger-Inscrit s h)
              | inr (d, there) ↦ rw (on, good, there) (charger-Inscrit s h)
            ]
    ]
  ]

  create_fest_entry-Inscrit :
      (a : Appel) (parent equipe region : Text) (s : EntreesFest)
      → Inscrit k e s
      → Inscrit k e (create_fest_entry a parent equipe region s).1
  unfolding create_fest_entry
  create_fest_entry-Inscrit a parent equipe region s h = elim (Bool-cases (not a.festequipes)) [
    | inl off ↦ rw off h
    | inr on ↦ elim (Bool-cases (is_empty (fest_id_du_chemin parent) || is_empty a.uid)) [
      | inl bad ↦ rw (on, bad) h
      | inr good ↦ elim (Bool-cases (is_empty equipe)) [
        | inl no_team ↦ rw (on, good, no_team) h
        | inr team ↦
            elim (Option-cases
              (lookup (cle (fest_id_du_chemin parent) a.uid) (charger_entrees_fest_locked s).m)) [
                | inl free ↦
                    rw (on, good, team, free)
                      (inscrire-Inscrit a (cle (fest_id_du_chemin parent) a.uid) equipe region
                        (charger_entrees_fest_locked s) free (charger_loaded s)
                        (charger-Inscrit s h))
                | inr (d, there) ↦ rw (on, good, team, there) (charger-Inscrit s h)
              ]
      ]
    ]
  ]

  restart :
      (f : Option (Assoc EntreeFest)) (d : Bool)
      → lookup k (contenu f) ≡ some e
      → Inscrit k e (record { m = []; charge = false; dossier = d; fichier = f })
  unfolding charger_entrees_fest_locked
  restart none d h = record { en_memoire = h; sur_disque = h }
  restart (some f) d h = record { en_memoire = h; sur_disque = h }

  executer-Inscrit : (v : Evenement) (s : EntreesFest) → Inscrit k e s → Inscrit k e (executer v s)
  unfolding executer
  executer-Inscrit (lecture a nom) s h = get_fest_entry-Inscrit a nom s h
  executer-Inscrit (inscription a parent equipe region) s h =
      create_fest_entry-Inscrit a parent equipe region s h
  executer-Inscrit redemarrage s h = restart s.fichier s.dossier h.sur_disque

  pub executer_tous-Inscrit :
      (vs : List Evenement) (s : EntreesFest) → Inscrit k e s → Inscrit k e (executer_tous vs s)
  unfolding executer_tous
  executer_tous-Inscrit [] s h = h
  executer_tous-Inscrit (v ∷ vs) s h =
      executer_tous-Inscrit vs (executer v s) (executer-Inscrit v s h)
