-- ===== src/Fest/Figee.antt =====
-- fest_intermede.go: the interlude over the battles, the requests and the restarts that follow it.
use splatoon.Base.{
  ℕ, ◌≡◌, refl, ap, ◌∙◌, true, false, ◌||◌, Bool-cases, Option, none, some, Option-cases, [], ◌∷◌,
  ℤ, Text, is_empty, text_eq, text_eq_iff, Assoc, lookup, insert, lookup-insert, inl, inr,
}
use splatoon.Fest.{positif}
use splatoon.Fest.Intermede.{
  ComptageFest, VictoiresFest, Ecriture, ecrite, refusee, tronquee, charger_victoires_locked, omise,
  sauvee, enregistrer_victoires_locked, comptage_de, noter, enregistrer_victoire_de_fete,
  enregistrer_ferveur,
}

-- What happens to the counts: a battle that is won, the ink of a camp, a request of the interlude, or
-- a restart of the server, which keeps only the disk.
pub data Evenement {ℓ} (A : Type ℓ) : Type ℓ where
  victoire : Ecriture → Text → Text → Text → Evenement A
  encrage : Ecriture → Text → Text → ℤ → Evenement A
  demande : Ecriture → Text → ℕ → ℕ → Assoc A → Evenement A
  redemarrage : Evenement A

-- The write leaves a file that can be read.
abbrev pub Lisible : Ecriture → Type 0
Lisible ecrite = Unit
Lisible refusee = Unit
Lisible tronquee = ⊥

module _ {ℓ} {A : Type ℓ} where
  abbrev pub EcritureLisible : Evenement A → Type 0
  EcritureLisible (victoire d f c mode) = Lisible d
  EcritureLisible (encrage d f c n) = Lisible d
  EcritureLisible (demande d f t u v) = Lisible d
  EcritureLisible redemarrage = Unit

  abbrev pub vues : VictoiresFest A → Assoc (ComptageFest A)
  vues s = (charger_victoires_locked s).m

  abbrev pub photo : Text → Assoc (ComptageFest A) → Option (Assoc A)
  photo k m = (comptage_de k m).intermede

  abbrev pub contenu : Option (Assoc (ComptageFest A)) → Assoc (ComptageFest A)
  contenu none = []
  contenu (some f) = f

  -- The interlude stands in the memory and on the disk.
  pub record Figee (k : Text) (i : Option (Assoc A)) (s : VictoiresFest A) : Type ℓ where
    pub en_memoire : photo k (vues s) ≡ i
    pub sur_disque : photo k (contenu s.fichier) ≡ i

  pub charger_loaded : (s : VictoiresFest A) → (charger_victoires_locked s).charge ≡ true
  unfolding charger_victoires_locked
  charger_loaded s = elim (Bool-cases s.charge) [
    | inl yes_loaded ↦ rw yes_loaded refl
    | inr not_loaded ↦ elim (Option-cases s.fichier) [
      | inl no_file ↦ rw (not_loaded, no_file) refl
      | inr (f, file) ↦ rw (not_loaded, file) refl
    ]
  ]

  pub charger_file : (s : VictoiresFest A) → (charger_victoires_locked s).fichier ≡ s.fichier
  unfolding charger_victoires_locked
  charger_file s = elim (Bool-cases s.charge) [
    | inl yes_loaded ↦ rw yes_loaded refl
    | inr not_loaded ↦ elim (Option-cases s.fichier) [
      | inl no_file ↦ rw (not_loaded, no_file) no_file
      | inr (f, file) ↦ rw (not_loaded, file) file
    ]
  ]

  pub vues-loaded : (s : VictoiresFest A) → s.charge ≡ true → vues s ≡ s.m
  unfolding charger_victoires_locked
  vues-loaded s h = rw h refl

  pub photo-insert :
      (j k : Text) (c : ComptageFest A) (m : Assoc (ComptageFest A))
      → c.intermede ≡ photo j m
      → photo k (insert j c m) ≡ photo k m
  photo-insert j k c m h = elim (Bool-cases (text_eq j k)) [
    | inl same ↦
        rw (photo, comptage_de, lookup-insert j k c m, same)
          (h ∙ ap (λ x. photo x m) ((text_eq_iff j k).0 same))
    | inr differ ↦ rw (photo, comptage_de, lookup-insert j k c m, differ) refl
  ]

  pub photo-sauvee :
      (k : Text) (m : Assoc (ComptageFest A)) → photo k (sauvee m) ≡ omise (photo k m)
  unfolding sauvee lookup
  photo-sauvee k [] = unfold omise in refl
  photo-sauvee k ((j, c) ∷ m) = elim (Bool-cases (text_eq j k)) [
    | inl same ↦ rw (photo, comptage_de, same) refl
    | inr differ ↦ rw (photo, comptage_de, differ) (photo-sauvee k m)
  ]

  module _ (k : Text) (i : Option (Assoc A)) (whole : omise i ≡ i) where
    pub charger-Figee : (s : VictoiresFest A) → Figee k i s → Figee k i (charger_victoires_locked s)
    charger-Figee s h = record {
      en_memoire =
          ap (photo k) (vues-loaded (charger_victoires_locked s) (charger_loaded s)) ∙ h.en_memoire;
      sur_disque = ap (λ f. photo k (contenu f)) (charger_file s) ∙ h.sur_disque;
    }

    -- A memory that shows the interlude is saved as well as the disk takes it.
    pub enregistrer-Figee :
        (d : Ecriture) (s : VictoiresFest A)
        → Lisible d
        → s.charge ≡ true
        → photo k s.m ≡ i
        → photo k (contenu s.fichier) ≡ i
        → Figee k i (enregistrer_victoires_locked d s)
    unfolding enregistrer_victoires_locked
    enregistrer-Figee ecrite s l loaded here there = record {
      en_memoire =
          ap (photo k) (vues-loaded (record s { fichier = some (sauvee s.m) }) loaded) ∙ here;
      sur_disque = photo-sauvee k s.m ∙ (ap omise here ∙ whole);
    }
    enregistrer-Figee refusee s l loaded here there = record {
      en_memoire = ap (photo k) (vues-loaded s loaded) ∙ here;
      sur_disque = there;
    }
    enregistrer-Figee tronquee s l loaded here there = absurd l

    -- A count that keeps its fest's interlude.
    noter-Figee :
        (d : Ecriture) (j : Text) (c : ComptageFest A) (s : VictoiresFest A)
        → Lisible d
        → c.intermede ≡ photo j (vues s)
        → Figee k i s
        → Figee k i (noter d j c (charger_victoires_locked s))
    noter-Figee d j c s l same h =
        enregistrer-Figee d (record (charger_victoires_locked s) { m = insert j c (vues s) }) l
          (charger_loaded s) (photo-insert j k c (vues s) same ∙ h.en_memoire)
          (ap (λ f. photo k (contenu f)) (charger_file s) ∙ h.sur_disque)

    pub victoire-Figee :
        (d : Ecriture) (j camp mode : Text) (s : VictoiresFest A)
        → Lisible d
        → Figee k i s
        → Figee k i (enregistrer_victoire_de_fete d j camp mode s)
    unfolding enregistrer_victoire_de_fete
    victoire-Figee d j camp mode s l h = elim (Bool-cases (is_empty j || is_empty camp)) [
      | inl bad ↦ rw bad h
      | inr good ↦ rw good (noter-Figee d j _ s l refl h)
    ]

    pub encrage-Figee :
        (d : Ecriture) (j camp : Text) (encre : ℤ) (s : VictoiresFest A)
        → Lisible d
        → Figee k i s
        → Figee k i (enregistrer_ferveur d j camp encre s)
    unfolding enregistrer_ferveur
    encrage-Figee d j camp encre s l h = elim (Bool-cases (is_empty j || is_empty camp)) [
      | inl bad ↦ rw bad h
      | inr good ↦ elim (Option-cases (positif (some encre))) [
        | inl none_spilt ↦ rw (good, none_spilt) h
        | inr (n, spilt) ↦ rw (good, spilt) (noter-Figee d j _ s l refl h)
      ]
    ]

    pub restart :
        (f : Option (Assoc (ComptageFest A)))
        → photo k (contenu f) ≡ i
        → Figee k i (record { m = []; charge = false; fichier = f })
    unfolding charger_victoires_locked
    restart none h = record { en_memoire = h; sur_disque = h }
    restart (some f) h = record { en_memoire = h; sur_disque = h }
