-- ===== src/Cve/Laws.antt =====
-- src/activities/cve_check.py: what the daily check reports.
use mathlib.Core.Path.{subst}
use agentic_temporal_wf.Base.{
  Bool, true, false, List, [], ◌∷◌, ◌++◌, ◌≡◌, ◌⊎◌, inl, inr, if◌then◌else◌, Outcome, returns,
  raises, ◌>>=◌, Ensures, Ensures->>=, Bool-cases,
}
use agentic_temporal_wf.Base.Text.{Text}
use agentic_temporal_wf.Base.Json.{Json, Items, nil, cons}
use agentic_temporal_wf.Cve.{
  Scores, CveFinding, packages, is_affected, parse_advisory, finding_of, filter_findings,
  fetch_advisories, check_packages, daily_cve_check,
}

module _ {A : Type 0} where
  abbrev Member : A → List A → Type 0
  Member a [] = ⊥
  Member a (b ∷ ys) = (b ≡ a) ⊎ Member a ys

  Member-append : (a : A) (xs ys : List A) → Member a (xs ++ ys) → Member a xs ⊎ Member a ys
  Member-append a [] ys m = inr m
  Member-append a (b ∷ xs) ys (inl e) = inl (inl e)
  Member-append a (b ∷ xs) ys (inr m) = elim (Member-append a xs ys m) [
    | inl l ↦ inl (inr l)
    | inr r ↦ inr r
  ]

  append-Member : (a : A) (xs ys : List A) → Member a xs ⊎ Member a ys → Member a (xs ++ ys)
  append-Member a [] ys (inl m) = absurd m
  append-Member a [] ys (inr m) = m
  append-Member a (b ∷ xs) ys (inl (inl e)) = inl e
  append-Member a (b ∷ xs) ys (inl (inr m)) = inr (append-Member a xs ys (inl m))
  append-Member a (b ∷ xs) ys (inr m) = inr (append-Member a xs ys (inr m))

  -- The list has the members that satisfy `P`, and no others.
  abbrev pub Exactly : (A → Type 0) → List A → Type 0
  Exactly P xs = (a : A) → (Member a xs → P a) × (P a → Member a xs)

  Exactly-append :
      (P Q : A → Type 0) (xs ys : List A)
      → Exactly P xs
      → Exactly Q ys
      → Exactly (λ a. P a ⊎ Q a) (xs ++ ys)
  Exactly-append P Q xs ys p q a = (
    λ m. elim (Member-append a xs ys m) [ inl l ↦ inl ((p a).0 l) | inr r ↦ inr ((q a).0 r) ],
    λ k. append-Member a xs ys (elim k [ inl l ↦ inl ((p a).1 l) | inr r ↦ inr ((q a).1 r) ]),
  )

  Ensures-append :
      (P Q : A → Type 0) (m n : Outcome (List A))
      → Ensures (Exactly P) m
      → Ensures (Exactly Q) n
      → Ensures (Exactly (λ a. P a ⊎ Q a)) (m >>= λ xs. n >>= λ ys. returns (xs ++ ys))
  Ensures-append P Q (returns xs) (returns ys) p q = Exactly-append P Q xs ys p q
  Ensures-append P Q (returns xs) (raises e) p q = tt
  Ensures-append P Q (raises e) n p q = tt

module _ (s : Scores) where
  open s use {Score, at_least}

  -- An advisory that affects the package, is parsed to the finding, and reaches the threshold.
  abbrev Reports : Text → Text → Score → Json → CveFinding s → Type 0
  Reports ecosystem pkg threshold adv f =
      (is_affected ecosystem pkg adv ≡ returns true)
      × (parse_advisory s adv ecosystem pkg ≡ returns f)
      × (at_least f.cvss threshold ≡ true)

  -- One of the advisories does.
  abbrev Reported : Text → Text → Score → Items → CveFinding s → Type 0
  Reported ecosystem pkg threshold nil f = ⊥
  Reported ecosystem pkg threshold (cons adv advs) f =
      Reports ecosystem pkg threshold adv f ⊎ Reported ecosystem pkg threshold advs f

  -- One of a feed that was fetched does.
  abbrev InFeed : Text → Text → Score → Outcome Items → CveFinding s → Type 0
  InFeed ecosystem pkg threshold (returns advs) f = Reported ecosystem pkg threshold advs f
  InFeed ecosystem pkg threshold (raises e) f = ⊥

  -- One of the feed of a package of the list does.
  abbrev pub Justified :
      (Text → Text → Outcome Json) → Score → List (Text × Text) → CveFinding s → Type 0
  Justified feed threshold [] f = ⊥
  Justified feed threshold ((ecosystem, pkg) ∷ more) f =
      InFeed ecosystem pkg threshold (fetch_advisories feed ecosystem pkg) f
      ⊎ Justified feed threshold more f

  parsed_once :
      (adv : Json) (ecosystem pkg : Text) (f g : CveFinding s)
      → parse_advisory s adv ecosystem pkg ≡ returns f
      → parse_advisory s adv ecosystem pkg ≡ returns g
      → f ≡ g
  parsed_once adv ecosystem pkg f g e e' = cc

  kept-Reports :
      (adv : Json) (ecosystem pkg : Text) (threshold : Score) (f : CveFinding s)
      → is_affected ecosystem pkg adv ≡ returns true
      → parse_advisory s adv ecosystem pkg ≡ returns f
      → Exactly
          (Reports ecosystem pkg threshold adv)
          (if at_least f.cvss threshold then f ∷ [] else [])
  kept-Reports adv ecosystem pkg threshold f affected parsed g =
      elim (Bool-cases (at_least f.cvss threshold)) [
        | inl h ↦ rw h (
          λ m. elim m [
            | inl e ↦ subst (Reports ecosystem pkg threshold adv) e (affected, parsed, h)
            | inr none ↦ absurd none
          ],
          λ (_, parsed', _). inl (parsed_once adv ecosystem pkg f g parsed parsed'),
        )
        | inr h ↦ rw h (
          λ m. absurd m,
          λ (_, parsed', h').
              let e = parsed_once adv ecosystem pkg f g parsed parsed' in
              let same : at_least f.cvss threshold ≡ at_least g.cvss threshold =
                λ i. at_least (e i).cvss threshold in
              cc,
        )
      ]

  found-Reports :
      (adv : Json) (ecosystem pkg : Text) (threshold : Score) (b : Bool)
      → is_affected ecosystem pkg adv ≡ returns b
      → Ensures (Exactly (Reports ecosystem pkg threshold adv)) (
          if b
          then (parse_advisory s adv ecosystem pkg >>= λ f.
              returns (if at_least f.cvss threshold then f ∷ [] else []))
          else returns [])
  found-Reports adv ecosystem pkg threshold true affected =
      Ensures->>= (Exactly (Reports ecosystem pkg threshold adv))
        (parse_advisory s adv ecosystem pkg)
        (λ f. returns (if at_least f.cvss threshold then f ∷ [] else []))
        λ f parsed. kept-Reports adv ecosystem pkg threshold f affected parsed
  found-Reports adv ecosystem pkg threshold false affected =
      λ g. (λ m. absurd m, λ (affected', _, _). cc)

  finding_of-Reports :
      (adv : Json) (ecosystem pkg : Text) (threshold : Score)
      → Ensures
          (Exactly (Reports ecosystem pkg threshold adv))
          (finding_of s adv ecosystem pkg threshold)
  unfolding finding_of
  finding_of-Reports adv ecosystem pkg threshold =
      Ensures->>= (Exactly (Reports ecosystem pkg threshold adv)) (is_affected ecosystem pkg adv)
        (λ b.
          if b
          then (parse_advisory s adv ecosystem pkg >>= λ f.
              returns (if at_least f.cvss threshold then f ∷ [] else []))
          else returns [])
        (found-Reports adv ecosystem pkg threshold)

  filter_findings-Reported :
      (advs : Items) (ecosystem pkg : Text) (threshold : Score)
      → Ensures
          (Exactly (Reported ecosystem pkg threshold advs))
          (filter_findings s advs ecosystem pkg threshold)
  unfolding filter_findings
  filter_findings-Reported nil ecosystem pkg threshold = λ f. (λ m. m, λ r. r)
  filter_findings-Reported (cons adv advs) ecosystem pkg threshold =
      Ensures-append (Reports ecosystem pkg threshold adv) (Reported ecosystem pkg threshold advs)
        (finding_of s adv ecosystem pkg threshold) (filter_findings s advs ecosystem pkg threshold)
        (finding_of-Reports adv ecosystem pkg threshold)
        (filter_findings-Reported advs ecosystem pkg threshold)

  unfed :
      (P : CveFinding s → Type 0) (m : Outcome (List (CveFinding s)))
      → Ensures (Exactly P) m
      → Ensures (Exactly (λ f. ⊥ ⊎ P f)) m
  unfed P (returns fs) p =
      λ f. (λ m. inr ((p f).0 m), λ k. elim k [ inl none ↦ absurd none | inr r ↦ (p f).1 r ])
  unfed P (raises e) p = tt

  -- What a package adds, by what its feed gives.
  added-InFeed :
      (ecosystem pkg : Text) (threshold : Score) (P : CveFinding s → Type 0)
      → (later : Outcome (List (CveFinding s))) → Ensures (Exactly P) later
      → (fetched : Outcome Items)
      → Ensures (Exactly (λ f. InFeed ecosystem pkg threshold fetched f ⊎ P f)) (elim fetched [
        | raises _ ↦ later
        | returns advs ↦ do
          found ← filter_findings s advs ecosystem pkg threshold
          rest ← later
          returns (found ++ rest)
      ])
  added-InFeed ecosystem pkg threshold P later p (raises e) = unfed P later p
  added-InFeed ecosystem pkg threshold P later p (returns advs) =
      Ensures-append (Reported ecosystem pkg threshold advs) P
        (filter_findings s advs ecosystem pkg threshold) later
        (filter_findings-Reported advs ecosystem pkg threshold) p

  check_packages-Justified :
      (feed : Text → Text → Outcome Json) (threshold : Score) (listed : List (Text × Text))
      → Ensures (Exactly (Justified feed threshold listed)) (check_packages s feed threshold listed)
  unfolding check_packages
  check_packages-Justified feed threshold [] = λ f. (λ m. m, λ r. r)
  check_packages-Justified feed threshold ((ecosystem, pkg) ∷ more) =
      added-InFeed ecosystem pkg threshold (Justified feed threshold more)
        (check_packages s feed threshold more) (check_packages-Justified feed threshold more)
        (fetch_advisories feed ecosystem pkg)

-- Where the check reports its findings, they are exactly those of the advisories that the feed gave
-- for one of the two packages, that name the package among their vulnerabilities, and whose score
-- reaches the threshold; a package whose feed cannot be fetched has none.
pub daily_cve_check-Justified :
    (s : Scores) (feed : Text → Text → Outcome Json) (threshold : s.Score)
    → Ensures (Exactly (Justified s feed threshold packages)) (daily_cve_check s feed threshold)
unfolding daily_cve_check
daily_cve_check-Justified s feed threshold = check_packages-Justified s feed threshold packages
