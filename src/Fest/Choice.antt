-- ===== src/Fest/Choice.antt =====
-- fest_entries.go: the choice of a camp, over the calls and the restarts that follow it.
use splatoon.Base.{
  ◌≡◌, refl, sym, ap, ◌∙◌, subst, true, false, not, ◌&&◌, ◌||◌, Bool-cases, some, Option-cases,
  List, Text, is_empty, text_eq_refl, lookup, insert, lookup-insert, inl, inr,
}
use splatoon.Fest.Entries.{
  EntreeFest, EntreesFest, Appel, FestEntry, Reponse, entree, charger_entrees_fest_locked,
  enregistrer_entrees_fest_locked, fest_id_du_chemin, nom_entree_fest, cle, locataire,
  get_fest_entry, inscrire, create_fest_entry,
}
use splatoon.Fest.Kept.{
  Evenement, executer_tous, vues, contenu, Inscrit, charger-Inscrit, loaded_here,
  executer_tous-Inscrit, charger_loaded,
}

-- A request that is served: the flag is on, and it names a fest and a caller.
module _ (e : EntreeFest) (b : Appel) (nom : Text) (s : EntreesFest)
    (h : Inscrit (cle (fest_id_du_chemin nom) b.uid) e s) (on : not b.festequipes ≡ false)
    (good : (is_empty (fest_id_du_chemin nom) || is_empty b.uid) ≡ false) where
  abbrev reponse : Reponse
  reponse = entree (record {
    name = nom_entree_fest (locataire b) (fest_id_du_chemin nom) b.uid;
    fest_team = e.equipe;
    fest_region = e.region;
  })

  get_fest_entry-answers : (get_fest_entry b nom s).0 ≡ reponse
  unfolding get_fest_entry
  get_fest_entry-answers = rw (on, good, h.en_memoire) refl

  create_fest_entry-answers :
      (equipe region : Text)
      → is_empty equipe ≡ false
      → (create_fest_entry b nom equipe region s).0 ≡ reponse
  unfolding create_fest_entry
  create_fest_entry-answers equipe region team = rw (on, good, team, h.en_memoire) refl

-- What an answer of an entry says of the state after it, where the disk agrees at the key.
abbrev Choisi : Text → Text → Reponse × EntreesFest → Type 0
Choisi fest_id uid (entree r, s') =
    (e : EntreeFest) × Inscrit (cle fest_id uid) e s'
    × (e.equipe ≡ r.fest_team)
    × (e.region ≡ r.fest_region)
    × ((is_empty fest_id || is_empty uid) ≡ false)
Choisi fest_id uid _ = Unit

inscrire-Inscrit_new :
    (a : Appel) (k equipe region : Text) (s : EntreesFest)
    → (s.dossier && a.disque) ≡ true
    → s.charge ≡ true
    → Inscrit k
        (record { equipe = equipe; region = region; pid = a.pid; vote = a.maintenant })
        (inscrire a k equipe region s)
unfolding inscrire enregistrer_entrees_fest_locked
inscrire-Inscrit_new a k equipe region s disk loaded =
    let x : EntreeFest = record {
      equipe = equipe;
      region = region;
      pid = a.pid;
      vote = a.maintenant;
    } in
    let here : lookup k (insert k x s.m) ≡ some x =
      rw (lookup-insert k k x s.m, text_eq_refl k) refl in
    rw disk (loaded_here k x _ s.charge s.dossier _ loaded here here)

charger_folder : (s : EntreesFest) → (charger_entrees_fest_locked s).dossier ≡ s.dossier
unfolding charger_entrees_fest_locked
charger_folder s = elim (Bool-cases s.charge) [
  | inl yes_loaded ↦ rw yes_loaded refl
  | inr not_loaded ↦ elim (Option-cases s.fichier) [
    | inl no_file ↦ rw (not_loaded, no_file) refl
    | inr (f, file) ↦ rw (not_loaded, file) refl
  ]
]

create_fest_entry-Choisi :
    (a : Appel) (parent equipe region : Text) (s : EntreesFest)
    → (s.dossier && a.disque) ≡ true
    → lookup (cle (fest_id_du_chemin parent) a.uid) (vues s)
      ≡ lookup (cle (fest_id_du_chemin parent) a.uid) (contenu s.fichier)
    → Choisi (fest_id_du_chemin parent) a.uid (create_fest_entry a parent equipe region s)
unfolding create_fest_entry
create_fest_entry-Choisi a parent equipe region s disk agree =
    elim (Bool-cases (not a.festequipes)) [
      | inl off ↦ rw off tt
      | inr on ↦ elim (Bool-cases (is_empty (fest_id_du_chemin parent) || is_empty a.uid)) [
        | inl bad ↦ rw (on, bad) tt
        | inr good ↦ elim (Bool-cases (is_empty equipe)) [
          | inl no_team ↦ rw (on, good, no_team) tt
          | inr team ↦
              elim (Option-cases (lookup (cle (fest_id_du_chemin parent) a.uid) (vues s))) [
                | inl free ↦
                    rw (on, good, team, free)
                      (
                        _,
                        inscrire-Inscrit_new a (cle (fest_id_du_chemin parent) a.uid) equipe region
                            (charger_entrees_fest_locked s) (rw (charger_folder s) disk)
                            (charger_loaded s),
                        refl,
                        refl,
                        good,
                      )
                | inr (d, there) ↦
                    rw (on, good, team, there)
                      (
                        d,
                        charger-Inscrit (cle (fest_id_du_chemin parent) a.uid) d s
                            (record { en_memoire = there; sur_disque = sym agree ∙ there }),
                        refl,
                        refl,
                        good,
                      )
              ]
        ]
      ]
    ]

-- When CreateFestEntry answers an entry, the disk taking the save and agreeing at the entry's key
-- with the memory, then, whatever reads, inscriptions and restarts follow, GetFestEntry and a new
-- CreateFestEntry with any team, by the same caller for the same fest and with the flag on, both
-- answer the team and the region of that first answer.
pub choix_irreversible :
    (a b : Appel) (parent nom equipe region autre ailleurs : Text) (s s1 : EntreesFest)
    (r : FestEntry) (vs : List Evenement)
    → (s.dossier && a.disque) ≡ true
    → lookup (cle (fest_id_du_chemin parent) a.uid) (vues s)
      ≡ lookup (cle (fest_id_du_chemin parent) a.uid) (contenu s.fichier)
    → create_fest_entry a parent equipe region s ≡ (entree r, s1)
    → b.festequipes ≡ true
    → b.uid ≡ a.uid
    → fest_id_du_chemin nom ≡ fest_id_du_chemin parent
    → is_empty autre ≡ false
    → let s2 = executer_tous vs s1 in
      let nommee : Reponse = entree (record {
        name = nom_entree_fest (locataire b) (fest_id_du_chemin nom) b.uid;
        fest_team = r.fest_team;
        fest_region = r.fest_region;
      }) in
      ((get_fest_entry b nom s2).0 ≡ nommee)
      × ((create_fest_entry b nom autre ailleurs s2).0 ≡ nommee)
choix_irreversible a b parent nom equipe region autre ailleurs s s1 r vs disk agree call on caller
      fest team =
    let (e, first, same_team, same_region, named) =
      subst (Choisi (fest_id_du_chemin parent) a.uid) call
        (create_fest_entry-Choisi a parent equipe region s disk agree) in
    let later : Inscrit (cle (fest_id_du_chemin nom) b.uid) e (executer_tous vs s1) =
      rw (fest, caller)
        (executer_tous-Inscrit (cle (fest_id_du_chemin parent) a.uid) e vs s1 first) in
    let good : (is_empty (fest_id_du_chemin nom) || is_empty b.uid) ≡ false =
      rw (fest, caller) named in
    let lit : not b.festequipes ≡ false = ap not on in
    (
      get_fest_entry-answers e b nom (executer_tous vs s1) later lit good ∙ (λ i. entree (record {
        name = nom_entree_fest (locataire b) (fest_id_du_chemin nom) b.uid;
        fest_team = same_team i;
        fest_region = same_region i;
      })),
      create_fest_entry-answers e b nom (executer_tous vs s1) later lit good autre ailleurs team
          ∙ (λ i. entree (record {
            name = nom_entree_fest (locataire b) (fest_id_du_chemin nom) b.uid;
            fest_team = same_team i;
            fest_region = same_region i;
          })),
    )
