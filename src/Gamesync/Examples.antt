-- ===== src/Gamesync/Examples.antt =====
-- gamesync.go at concrete inputs: two games whose consoles write documents of the same names.
use splatoon.Base.{
  ℕ, ◌≤◌, ◌≡◌, refl, false, some, List, [], ◌∷◌, ℤ, pos, Text, codes, contains, has_prefix, text_eq,
  Assoc, lookup, insert, erase,
}
use splatoon.Gamesync.{
  WriteOperation, update_document, transform_document, delete_document, load_global_value, Store,
  Magasin, cle_store, merge_fields, trim_right_barre, transformer, est_membre, docs_from,
  docs_sous_collection, ecrire, apply_writes_to_store,
}
use splatoon.Gamesync.Isolation.{IsGsid, apply_writes_to_store-apart}
use splatoon.Gamesync.Streams.{
  GsSessionInfo, Canaux, envoyer, wake, prevenir_les_autres, reveiller_la_partie,
  reveiller_la_partie-there,
}
use splatoon.Gamesync.Departure.{Serveur, Parti, has_suffix, oublier_session, oublier_session-Parti}
use splatoon.Gamesync.Collections.{docs_sous_collection-lookup}

abbrev une : Text
une = codes "game-1"

abbrev autre_partie : Text
autre_partie = codes "game-2"

abbrev neuf : Magasin ℤ
neuf = record { store = []; seq = 0 }

-- A console of the first game writes its document, which the server then completes.
abbrev ecritures : List (WriteOperation ℤ)
ecritures =
    update_document (codes "docs/SessionInfo/a") ((codes "step", pos 1) ∷ [])
    ∷ transform_document (codes "docs/SessionInfo/a")
        ((codes "seq", load_global_value (codes "n")) ∷ [])
    ∷ []

abbrev apres : Magasin ℤ
apres = apply_writes_to_store (λ n. n) une ecritures neuf

abbrev la_fiche : Assoc ℤ
la_fiche = (codes "step", pos 1) ∷ (codes "seq", pos 1) ∷ []

la_partie_se_lit :
    docs_sous_collection une (codes "docs/SessionInfo/") apres.store
    ≡ (codes "docs/SessionInfo/a", la_fiche) ∷ []
unfolding docs_sous_collection apply_writes_to_store ecrire cle_store merge_fields transformer
    lookup insert trim_right_barre docs_from est_membre has_prefix contains text_eq
la_partie_se_lit = refl

effacee :
    (apply_writes_to_store
      (λ (n : ℤ). n)
      une
      (delete_document (codes "docs/SessionInfo/a") ∷ [])
      apres).store
    ≡ []
unfolding apply_writes_to_store ecrire cle_store merge_fields transformer lookup insert erase
    text_eq
effacee = refl

une-IsGsid : IsGsid une
une-IsGsid = record { named = refl; plain = (refl, (refl, (refl, (refl, (refl, (refl, tt)))))) }

autre-IsGsid : IsGsid autre_partie
autre-IsGsid = record { named = refl; plain = (refl, (refl, (refl, (refl, (refl, (refl, tt)))))) }

apart : text_eq une autre_partie ≡ false
unfolding text_eq
apart = refl

apply_writes_to_store-apart_example :
    docs_sous_collection autre_partie
      (codes "docs/SessionInfo")
      (apply_writes_to_store (λ (n : ℤ). n) une ecritures neuf).store
    ≡ docs_sous_collection autre_partie (codes "docs/SessionInfo") neuf.store
apply_writes_to_store-apart_example =
    apply_writes_to_store-apart (λ (n : ℤ). n) une autre_partie (codes "docs/SessionInfo")
      une-IsGsid autre-IsGsid apart ecritures neuf

abbrev un_document : Store ℤ
un_document = (cle_store une (codes "docs/SessionInfo/a"), la_fiche) ∷ []

docs_sous_collection-lookup_example :
    lookup
      (codes "docs/SessionInfo/a")
      (docs_sous_collection une (codes "docs/SessionInfo//") un_document)
    ≡ lookup (cle_store une (codes "docs/SessionInfo/a")) un_document
unfolding trim_right_barre contains has_prefix
docs_sous_collection-lookup_example =
    docs_sous_collection-lookup une (codes "docs/SessionInfo//") (codes "a") un_document (tt, tt)

-- Two consoles of one game, and one of another.
abbrev fiche_de_a : GsSessionInfo
fiche_de_a = record { ident = 1; uid = codes "u-a"; gsid = une }

abbrev fiche_de_b : GsSessionInfo
fiche_de_b = record { ident = 2; uid = codes "u-b"; gsid = une }

abbrev sessions : Assoc GsSessionInfo
sessions =
    (codes "a", fiche_de_a)
    ∷ (codes "b", fiche_de_b)
    ∷ (codes "c", record { ident = 3; uid = codes "u-c"; gsid = autre_partie })
    ∷ []

abbrev canaux_ouverts : Assoc ℕ
canaux_ouverts = (codes "a", 0) ∷ (codes "b", 1) ∷ (codes "c", 2) ∷ []

abbrev aucun_signal : Canaux
aucun_signal = λ i. 0

-- The console of the other game is not woken.
l_autre_partie_dort :
    reveiller_la_partie false sessions canaux_ouverts (codes "a") aucun_signal 2 ≡ 0
unfolding reveiller_la_partie wake envoyer prevenir_les_autres lookup text_eq
l_autre_partie_dort = refl

reveiller_la_partie-there_example :
    1 ≤ reveiller_la_partie false sessions canaux_ouverts (codes "a") aucun_signal 1
unfolding lookup text_eq
reveiller_la_partie-there_example =
    reveiller_la_partie-there sessions canaux_ouverts (codes "a") (codes "b") fiche_de_a fiche_de_b
      1 aucun_signal refl refl refl refl refl refl

abbrev serveur : Serveur ℤ
serveur = record {
  sess = sessions;
  last = some 1;
  store = (cle_store une (codes "docs/SessionInfo/a"), la_fiche) ∷ [];
  attributs = (codes "a", pos 3) ∷ [];
  effectifs = (codes "a", 2) ∷ [];
  participants = [];
}

plus_de_document : (oublier_session (codes "a") serveur).store ≡ []
unfolding oublier_session lookup erase has_suffix has_prefix cle_store text_eq
plus_de_document = refl

oublier_session-Parti_example :
    Parti (codes "a") fiche_de_a serveur (oublier_session (codes "a") serveur)
unfolding lookup text_eq
oublier_session-Parti_example = oublier_session-Parti (codes "a") fiche_de_a serveur refl refl refl
