-- ===== src/Hooks/Secrets/Matchers.antt =====
-- plugins/tf-mitigations/hooks/secret_scan.py: what its patterns match.
use agentic_temporal_wf.Base.{
  ℕ, ◌≤◌, ◌-◌, Bool, true, Option, [], ◌∷◌, ◌++◌, or_else, ◌≡◌, refl, sym, ap, ◌∙◌, ◌⊎◌, inl, inr,
  arith, ⊤, length, all, is_some, Bool-cases, Option-cases, ◌==◌, nat_eq, append_assoc,
  length-append, ℕ_discrete,
}
use agentic_temporal_wf.Base.Text.{Text, codes}
use agentic_temporal_wf.Base.Regex.{literal, same, repeat, search_from}
use agentic_temporal_wf.Base.Regex.Laws.{repeat-Took}
use agentic_temporal_wf.Hooks.Restrict.Pattern.{literal-append, literal_prefix}
use agentic_temporal_wf.Hooks.Secrets.{
  upper_digit, alnum, alnum_underscore, alnum_dash, found, found_run, aws_key, private_key,
  github_token, github_pat, anthropic_key,
}

-- A run of a class, of the length that a pattern asks for.
abbrev Run : (ℕ → Bool) → ℕ → ℕ → Text → Type 0
Run p lo hi w = (all p w ≡ true) × (lo ≤ length w) × (length w ≤ hi)

-- The secrets that the hook knows.
pub data Secret (s : Text) : Type 0 where
  aws : (w : Text) → s ≡ codes "AKIA" ++ w → all upper_digit w ≡ true → length w ≡ 16 → Secret s
  key_file :
      (kind : Text)
      → s ≡ codes "-----BEGIN " ++ (kind ++ codes " PRIVATE KEY")
      → (kind ≡ codes "RSA") ⊎ (kind ≡ codes "OPENSSH")
      → Secret s
  token : (w : Text) → s ≡ codes "ghp_" ++ w → all alnum w ≡ true → length w ≡ 36 → Secret s
  pat :
      (w : Text)
      → s ≡ codes "github_pat_" ++ w
      → all alnum_underscore w ≡ true
      → length w ≡ 82
      → Secret s
  anthropic :
      (w : Text) → s ≡ codes "sk-ant-" ++ w → all alnum_dash w ≡ true → 20 ≤ length w → Secret s

-- A text that holds a secret somewhere.
pub record Leaks (blob : Text) : Type 0 where
  pub before : Text
  pub secret : Text
  pub after : Text
  pub whole : blob ≡ before ++ (secret ++ after)
  pub known : Secret secret

repeat-found :
    (p : ℕ → Bool) (lo hi : ℕ) (acc w s : Text)
    → all p w ≡ true
    → lo ≤ length w
    → lo ≤ hi
    → is_some (repeat p lo hi acc (w ++ s) found_run) ≡ true
unfolding repeat
repeat-found p lo hi acc [] [] a l m = ground arith
repeat-found p lo hi acc [] (c ∷ s) a l m = ground arith
repeat-found p lo hi acc (c ∷ w) s a l m = elim (Bool-cases (lo == 0)) [
  | inl stop ↦ ground arith
  | inr more ↦
      let rec =
        repeat-found p (lo - 1) (hi - 1) (acc ++ c ∷ []) w s (ground arith) (ground arith)
          (ground arith) in
      ground (arith, rec)
]

pub search_from-found :
    (m : Text → Option ⊤) (a s : Text)
    → is_some (m s) ≡ true
    → is_some (search_from m (a ++ s)) ≡ true
unfolding search_from
search_from-found m [] [] h = h
search_from-found m [] (c ∷ s) h = ground arith
search_from-found m (c ∷ a) s h = let rec = search_from-found m a s h in ground (arith, rec)

pub search_from_at :
    (m : Text → Option ⊤) (blob : Text)
    → is_some (search_from m blob) ≡ true
    → (a : Text) × (s : Text) × (blob ≡ a ++ s) × (is_some (m s) ≡ true)
unfolding search_from
search_from_at m [] h = ([], [], refl, h)
search_from_at m (c ∷ s) h = elim (Bool-cases (is_some (m (c ∷ s)))) [
  | inl here ↦ ([], c ∷ s, refl, here)
  | inr later ↦
      let (a, t, at_, e) = search_from_at m s (ground arith) in
      (c ∷ a, t, ap (λ (v : Text). c ∷ v) at_, e)
]

-- A literal start with a run of a class after it.
module _ (p : ℕ → Bool) (lo : ℕ) (start : Text) where
  keyed-found :
      (hi : Text → ℕ) (w s : Text)
      → all p w ≡ true
      → lo ≤ length w
      → lo ≤ hi (w ++ s)
      → is_some (literal same start ((start ++ w) ++ s) (λ t. repeat p lo (hi t) [] t found_run))
        ≡ true
  keyed-found hi w s a l m =
      ap is_some (
        ap (λ (v : Text). literal same start v (λ t. repeat p lo (hi t) [] t found_run))
          (append_assoc start w s)
        ∙ literal-append start (w ++ s) (λ t. repeat p lo (hi t) [] t found_run))
      ∙ repeat-found p lo (hi (w ++ s)) [] w s a l m

  keyed_prefix :
      (hi : Text → ℕ) (s : Text)
      → is_some (literal same start s (λ t. repeat p lo (hi t) [] t found_run)) ≡ true
      → (w : Text) × (rest : Text) × (t : Text) × (s ≡ (start ++ w) ++ rest) × Run p lo (hi t) w
  keyed_prefix hi s h =
      elim (Option-cases (literal same start s (λ t. repeat p lo (hi t) [] t found_run))) [
        | inl failed ↦ let e = rw failed at h in cc (e)
        | inr (r, matched) ↦
            let (t, at_t, went) = literal_prefix start s _ matched in
            let took = repeat-Took p found_run lo (hi t) [] t went in
            (
              took.run,
              took.rest,
              t,
              at_t
                  ∙ (ap (λ (v : Text). start ++ v) took.whole
                      ∙ sym (append_assoc start took.run took.rest)),
              (took.of_class, took.at_least, took.at_most),
            )
      ]

-- The matcher of a pattern accepts a text that starts with a secret, and no other.
abbrev pub Starts : Text → Type 0
Starts s = (secret : Text) × (rest : Text) × (s ≡ secret ++ rest) × Secret secret

pub aws_key-Starts : (s : Text) → is_some (aws_key s) ≡ true → Starts s
unfolding aws_key
aws_key-Starts s h =
    let (w, rest, _, e, (a, l, m)) = keyed_prefix upper_digit 16 (codes "AKIA") (λ _. 16) s h in
    (codes "AKIA" ++ w, rest, e, aws w refl a (omega arith))

pub github_token-Starts : (s : Text) → is_some (github_token s) ≡ true → Starts s
unfolding github_token
github_token-Starts s h =
    let (w, rest, _, e, (a, l, m)) = keyed_prefix alnum 36 (codes "ghp_") (λ _. 36) s h in
    (codes "ghp_" ++ w, rest, e, token w refl a (omega arith))

pub github_pat-Starts : (s : Text) → is_some (github_pat s) ≡ true → Starts s
unfolding github_pat
github_pat-Starts s h =
    let (w, rest, _, e, (a, l, m)) =
      keyed_prefix alnum_underscore 82 (codes "github_pat_") (λ _. 82) s h in
    (codes "github_pat_" ++ w, rest, e, pat w refl a (omega arith))

pub anthropic_key-Starts : (s : Text) → is_some (anthropic_key s) ≡ true → Starts s
unfolding anthropic_key
anthropic_key-Starts s h =
    let (w, rest, _, e, (a, l, m)) = keyed_prefix alnum_dash 20 (codes "sk-ant-") length s h in
    (codes "sk-ant-" ++ w, rest, e, anthropic w refl a l)

key_of_kind :
    (kind t u s : Text)
    → s ≡ codes "-----BEGIN " ++ (kind ++ t)
    → t ≡ codes " PRIVATE KEY" ++ u
    → (kind ≡ codes "RSA") ⊎ (kind ≡ codes "OPENSSH")
    → Starts s
key_of_kind kind t u s e f k = (
  codes "-----BEGIN " ++ (kind ++ codes " PRIVATE KEY"),
  u,
  e
      ∙ ap (λ (v : Text). codes "-----BEGIN " ++ v)
          (ap (λ (v : Text). kind ++ v) f ∙ sym (append_assoc kind (codes " PRIVATE KEY") u)),
  key_file kind refl k,
)

pub private_key-Starts : (s : Text) → is_some (private_key s) ≡ true → Starts s
unfolding private_key
private_key-Starts s h = elim (Option-cases (private_key s)) [
  | inl failed ↦ let e = rw failed at h in cc (e)
  | inr (r, matched) ↦
      let (t, at_t, went) = literal_prefix (codes "-----BEGIN ") s _ matched in
      elim (Option-cases
        (literal same (codes "RSA") t (λ u. literal same (codes " PRIVATE KEY") u found))) [
          | inr (_, rsa) ↦
              let (u, at_u, closed) = literal_prefix (codes "RSA") t _ rsa in
              let (v, at_v, _) = literal_prefix (codes " PRIVATE KEY") u found closed in
              key_of_kind (codes "RSA") u v s
                (at_t ∙ ap (λ (v : Text). codes "-----BEGIN " ++ v) at_u) at_v (inl refl)
          | inl other ↦
              let (u, at_u, closed) =
                literal_prefix (codes "OPENSSH") t _ (rw (other, or_else) at went) in
              let (v, at_v, _) = literal_prefix (codes " PRIVATE KEY") u found closed in
              key_of_kind (codes "OPENSSH") u v s
                (at_t ∙ ap (λ (v : Text). codes "-----BEGIN " ++ v) at_u) at_v (inr refl)
        ]
]

pub aws_key-found :
    (w s : Text)
    → all upper_digit w ≡ true
    → length w ≡ 16
    → is_some (aws_key ((codes "AKIA" ++ w) ++ s)) ≡ true
unfolding aws_key
aws_key-found w s a l =
    keyed-found upper_digit 16 (codes "AKIA") (λ _. 16) w s a (omega arith) (omega arith)

pub github_token-found :
    (w s : Text)
    → all alnum w ≡ true
    → length w ≡ 36
    → is_some (github_token ((codes "ghp_" ++ w) ++ s)) ≡ true
unfolding github_token
github_token-found w s a l =
    keyed-found alnum 36 (codes "ghp_") (λ _. 36) w s a (omega arith) (omega arith)

pub github_pat-found :
    (w s : Text)
    → all alnum_underscore w ≡ true
    → length w ≡ 82
    → is_some (github_pat ((codes "github_pat_" ++ w) ++ s)) ≡ true
unfolding github_pat
github_pat-found w s a l =
    keyed-found alnum_underscore 82 (codes "github_pat_") (λ _. 82) w s a (omega arith)
      (omega arith)

pub anthropic_key-found :
    (w s : Text)
    → all alnum_dash w ≡ true
    → 20 ≤ length w
    → is_some (anthropic_key ((codes "sk-ant-" ++ w) ++ s)) ≡ true
unfolding anthropic_key
anthropic_key-found w s a l =
    keyed-found alnum_dash 20 (codes "sk-ant-") length w s a l (omega (arith, length-append w s))

pub private_key-found :
    (kind s : Text)
    → (kind ≡ codes "RSA") ⊎ (kind ≡ codes "OPENSSH")
    → is_some (private_key ((codes "-----BEGIN " ++ (kind ++ codes " PRIVATE KEY")) ++ s)) ≡ true
unfolding private_key literal same ℕ_discrete
private_key-found kind s (inl rsa) = rw rsa refl
private_key-found kind s (inr openssh) = rw openssh refl
