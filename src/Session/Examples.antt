-- ===== src/Session/Examples.antt =====
-- session_address_rewrite.go at concrete inputs, over a wire format with a number in each place.
use splatoon.Base.{
  ℕ, zero, suc, ◌^◌, ◌≤◌, ◌<◌, ◌≡◌, refl, ap, true, ◌&&◌, if◌then◌else◌, ◌==◌, ltb, leb, Option,
  some, none, List, [], ◌∷◌, ◌++◌, length, length-append, take, Text, arith, ◌≢◌, ◌↔◌, All, any,
  keep, not, map,
}
use splatoon.Session.{
  Wire, champ_game_session, ok, err, champ_absent, stuck, reecrire_champ, remplacer_chaine,
  reecrire_chaine, reecrire_adresse_session, reecrire_hote_port, champ_ronde, chaine_ronde,
  hote_port_ronde, for_reste,
}
use splatoon.Session.Fields.{
  Champ, champs, lire, lire_champ, take-append, est_chaine, ajout, champ_chaine,
}
use splatoon.Session.Strings.{remplace, remplacer_chaine-champs, reecrire_chaine-ne-stuck}
use splatoon.Session.Path.{SeLit, reecrire_chaine-SeLit}
use splatoon.Session.Located.{Mene, reecrire_adresse_session-Mene}
use splatoon.Session.Answer.{Reecrivable, reecrire_adresse_session-Reecrivable}

abbrev lit_tag : Text → Option (ℕ × ℕ × ℕ)
lit_tag [] = none
lit_tag (a ∷ []) = none
lit_tag (a ∷ b ∷ r) = if leb 1 a && (ltb a 2_147_483_648 && ltb b 8) then some (a, b, 2) else none

abbrev lit_octets : Text → Option (Text × ℕ)
lit_octets [] = none
lit_octets (n ∷ r) = if leb n (length r) then some (take n r, suc n) else none

abbrev lit_entier : Text → Option (ℕ × ℕ)
lit_entier [] = none
lit_entier (v ∷ r) = some (v, 1)

abbrev lit_valeur : ℕ → ℕ → Text → Option ℕ
lit_valeur num typ b =
    if typ == 2
    then (elim (lit_octets b) [ none ↦ none | some p ↦ some p.1 ])
    else if typ == 0
    then (elim (lit_entier b) [ none ↦ none | some p ↦ some p.1 ])
    else none

lit_tag_taken :
    (b : Text) (num typ n : ℕ)
    → lit_tag b ≡ some (num, typ, n)
    → (1 ≤ num) × (num < 2 ^ 31) × (typ < 8) × (1 ≤ n) × (n ≤ length b)
lit_tag_taken [] num typ n e = cc
lit_tag_taken (a ∷ []) num typ n e = cc
lit_tag_taken (a ∷ b ∷ r) num typ n e = ground arith

lit_tag_read :
    (num typ : ℕ) (rest : Text)
    → 1 ≤ num
    → num < 2 ^ 31
    → typ < 8
    → lit_tag ((num ∷ typ ∷ []) ++ rest) ≡ some (num, typ, 2)
lit_tag_read num typ rest a b c = ground arith

lit_octets_read : (v rest : Text) → lit_octets ((length v ∷ v) ++ rest) ≡ some (v, suc (length v))
lit_octets_read v rest = ground (arith, take-append v rest, length-append v rest)

take-take : (n : ℕ) (r rest : Text) → n ≤ length r → take n (take n r ++ rest) ≡ take n r
take-take zero r rest h = refl
take-take (suc n) [] rest h = absurd (omega arith)
take-take (suc n) (x ∷ r) rest h = ap (λ t. x ∷ t) (take-take n r rest (omega arith))

long-take : (n : ℕ) (r rest : Text) → n ≤ length r → n ≤ length (take n r ++ rest)
long-take zero r rest h = omega arith
long-take (suc n) [] rest h = absurd (omega arith)
long-take (suc n) (x ∷ r) rest h = omega (arith, long-take n r rest (omega arith))

lit_octets_prefix :
    (b rest v : Text) (m : ℕ)
    → lit_octets b ≡ some (v, m)
    → lit_octets (take m b ++ rest) ≡ some (v, m)
lit_octets_prefix [] rest v m e = cc
lit_octets_prefix (n ∷ r) rest v m e = ground (arith, take-take n r rest, long-take n r rest)

lit_valeur_taken : (num typ : ℕ) (b : Text) (m : ℕ) → lit_valeur num typ b ≡ some m → m ≤ length b
lit_valeur_taken num typ [] m e = ground arith
lit_valeur_taken num typ (n ∷ r) m e = ground arith

lit_valeur_prefix :
    (num typ : ℕ) (b rest : Text) (m : ℕ)
    → lit_valeur num typ b ≡ some m
    → lit_valeur num typ (take m b ++ rest) ≡ some m
lit_valeur_prefix num typ [] rest m e = ground arith
lit_valeur_prefix num typ (n ∷ r) rest m e = ground (arith, take-take n r rest, long-take n r rest)

abbrev fil : Wire
fil = record {
  varint_type = 0;
  bytes_type = 2;
  consume_tag = lit_tag;
  consume_bytes = lit_octets;
  consume_varint = lit_entier;
  consume_field_value = lit_valeur;
  tag = λ num typ. num ∷ typ ∷ [];
  bytes = λ v. length v ∷ v;
  varint = λ v. v ∷ [];
  types_small = types_small;
  tag_taken = lit_tag_taken;
  tag_read = lit_tag_read;
  bytes_read = lit_octets_read;
  varint_read = λ v rest h. refl;
  bytes_prefix = lit_octets_prefix;
  value_taken = lit_valeur_taken;
  value_prefix = lit_valeur_prefix;
  value_of_bytes = λ num b. refl;
  value_of_varint = λ num b. refl;
}
  where
    types_small : (0 < 8) × (2 < 8)
    types_small = omega arith

-- A GameSession with a host, a name and no port.
abbrev une_session : Text
une_session = 8 ∷ 2 ∷ 1 ∷ 120 ∷ 1 ∷ 2 ∷ 2 ∷ 97 ∷ 98 ∷ []

abbrev une_reponse : Text
une_reponse = 3 ∷ 0 ∷ 7 ∷ 6 ∷ 2 ∷ 9 ∷ une_session

-- The same with the host "hi" and the port 7575, and the length of the GameSession with them.
abbrev reponse_adressee : Text
reponse_adressee =
    3 ∷ 0 ∷ 7 ∷ 6 ∷ 2 ∷ 13 ∷ 8 ∷ 2 ∷ 2 ∷ 104 ∷ 105 ∷ 1 ∷ 2 ∷ 2 ∷ 97 ∷ 98 ∷ 9 ∷ 0 ∷ 7575 ∷ []

reecrit_l_adresse :
    reecrire_adresse_session fil une_reponse (104 ∷ 105 ∷ []) 7575 ≡ ok reponse_adressee
unfolding reecrire_adresse_session reecrire_champ for_reste champ_ronde reecrire_hote_port
    hote_port_ronde
reecrit_l_adresse = refl

sans_session : reecrire_adresse_session fil (3 ∷ 0 ∷ 7 ∷ []) (104 ∷ []) 7575 ≡ err (champ_absent 6)
unfolding reecrire_adresse_session reecrire_champ for_reste champ_ronde
sans_session = refl

-- The name of the GameSession, at the path {6, 1}.
reecrit_le_nom :
    reecrire_chaine fil une_reponse (6 ∷ 1 ∷ []) (122 ∷ [])
    ≡ ok (3 ∷ 0 ∷ 7 ∷ 6 ∷ 2 ∷ 8 ∷ 8 ∷ 2 ∷ 1 ∷ 120 ∷ 1 ∷ 2 ∷ 1 ∷ 122 ∷ [])
unfolding reecrire_chaine remplacer_chaine reecrire_champ for_reste champ_ronde chaine_ronde
reecrit_le_nom = refl

abbrev les_champs : List Champ
les_champs =
    record { num = 3; typ = 0; contenu = 7 ∷ [] }
    ∷ record { num = 6; typ = 2; contenu = 9 ∷ une_session }
    ∷ []

les_champs_lem : champs fil une_reponse ≡ some les_champs
unfolding champs lire lire_champ
les_champs_lem = refl

reecrire_adresse_session-Mene_example :
    (cs : List Champ) × (ds : List Champ) × (champs fil une_reponse ≡ some cs)
    × (champs fil reponse_adressee ≡ some ds)
    × (length ds ≡ length cs)
    × (keep (λ c. not (est_chaine fil champ_game_session c)) ds
        ≡ keep (λ c. not (est_chaine fil champ_game_session c)) cs)
    × (any (est_chaine fil champ_game_session) ds ≡ true)
    × All (Mene fil (104 ∷ 105 ∷ []) 7575) ds
reecrire_adresse_session-Mene_example =
    reecrire_adresse_session-Mene fil (104 ∷ 105 ∷ []) 7575 une_reponse reponse_adressee
      (omega arith) reecrit_l_adresse

reecrire_adresse_session-Reecrivable_example :
    ((out : Text) × (reecrire_adresse_session fil une_reponse (104 ∷ 105 ∷ []) 7575 ≡ ok out))
    ↔ Reecrivable fil une_reponse
reecrire_adresse_session-Reecrivable_example =
    reecrire_adresse_session-Reecrivable fil (104 ∷ 105 ∷ []) 7575 (omega arith) une_reponse

reecrire_chaine-SeLit_example :
    SeLit fil
      (3 ∷ 0 ∷ 7 ∷ 6 ∷ 2 ∷ 8 ∷ 8 ∷ 2 ∷ 1 ∷ 120 ∷ 1 ∷ 2 ∷ 1 ∷ 122 ∷ [])
      (6 ∷ 1 ∷ [])
      (122 ∷ [])
reecrire_chaine-SeLit_example =
    reecrire_chaine-SeLit fil (6 ∷ 1 ∷ []) une_reponse (122 ∷ []) _ (omega arith) reecrit_le_nom

reecrire_chaine-ne-stuck_example : reecrire_chaine fil une_reponse (6 ∷ 1 ∷ []) (122 ∷ []) ≢ stuck
reecrire_chaine-ne-stuck_example = reecrire_chaine-ne-stuck fil (6 ∷ 1 ∷ []) une_reponse (122 ∷ [])

remplacer_chaine-champs_example :
    (out : Text) × (remplacer_chaine fil une_reponse 3 (122 ∷ []) ≡ ok out)
    × (champs fil out
        ≡ some (
            map (remplace fil 3 (122 ∷ [])) les_champs
            ++ ajout fil (any (est_chaine fil 3) les_champs) (champ_chaine fil 3 (122 ∷ []))))
remplacer_chaine-champs_example =
    remplacer_chaine-champs fil 3 (122 ∷ []) une_reponse les_champs (omega arith) (omega arith)
      les_champs_lem
