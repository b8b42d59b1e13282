-- ===== src/Hooks/Secrets/Laws.antt =====
-- plugins/tf-mitigations/hooks/secret_scan.py: the decision on a tool call.
use agentic_temporal_wf.Base.{
  Bool, true, false, Option, some, List, [], ◌∷◌, ◌++◌, if◌then◌else◌, ◌≡◌, refl, sym, ap, ◌∙◌, ◌↔◌,
  inl, inr, arith, ⊤, is_some, Bool-cases, Option-cases, append_assoc, returns, contains, text_eq,
  contains-append, append-nil,
}
use agentic_temporal_wf.Base.Text.{Text, codes, join}
use agentic_temporal_wf.Base.Json.{or_empty-object, Fields, string, object, get, find_field}
use agentic_temporal_wf.Base.Regex.{search_from}
use agentic_temporal_wf.Hooks.{Decision, deny, Runtime}
use agentic_temporal_wf.Hooks.Secrets.{
  aws_key, private_key, github_token, github_pat, anthropic_key, patterns, scan, candidate,
  candidates, candidate_keys, payload_of, main,
}
use agentic_temporal_wf.Hooks.Secrets.Matchers.{
  Secret, aws, key_file, token, pat, anthropic, Leaks, Starts, search_from-found, search_from_at,
  aws_key-Starts, private_key-Starts, github_token-Starts, github_pat-Starts, anthropic_key-Starts,
  aws_key-found, private_key-found, github_token-found, github_pat-found, anthropic_key-found,
}

-- Some pattern of a list is found in the text.
abbrev any_found : List ((Text → Option ⊤) × Text) → Text → Bool
any_found [] blob = false
any_found ((m, _) ∷ more) blob = if is_some (search_from m blob) then true else any_found more blob

abbrev pub IsDeny : Decision → Type 0
IsDeny d = (reason : Text) × (d ≡ deny reason)

scan-any_found :
    (repr : Text → Text) (ps : List ((Text → Option ⊤) × Text)) (blob : Text)
    → IsDeny (scan repr ps blob) ↔ (any_found ps blob ≡ true)
unfolding scan
scan-any_found repr [] blob = (λ d. cc (d.1), λ h. cc)
scan-any_found repr ((m, t) ∷ more) blob = elim (Option-cases (search_from m blob)) [
  | inl missing ↦ rw (missing, scan) (scan-any_found repr more blob)
  | inr (r, at_) ↦ rw (at_, scan) (λ _. refl, λ _. (_, refl))
]

Leaks-at :
    (m : Text → Option ⊤) (blob : Text)
    → ((s : Text) → is_some (m s) ≡ true → Starts s)
    → is_some (search_from m blob) ≡ true
    → Leaks blob
Leaks-at m blob starts h =
    let (a, s, at_, e) = search_from_at m blob h in
    let (secret, rest, whole, known) = starts s e in
    record {
      before = a;
      secret = secret;
      after = rest;
      whole = at_ ∙ ap (λ (v : Text). a ++ v) whole;
      known = known;
    }

any_found-Leaks : (blob : Text) → any_found patterns blob ≡ true → Leaks blob
any_found-Leaks blob h = elim (Bool-cases (is_some (search_from aws_key blob))) [
  | inl e ↦ Leaks-at aws_key blob aws_key-Starts e
  | inr a ↦ elim (Bool-cases (is_some (search_from private_key blob))) [
    | inl e ↦ Leaks-at private_key blob private_key-Starts e
    | inr b ↦ elim (Bool-cases (is_some (search_from github_token blob))) [
      | inl e ↦ Leaks-at github_token blob github_token-Starts e
      | inr c ↦ elim (Bool-cases (is_some (search_from github_pat blob))) [
        | inl e ↦ Leaks-at github_pat blob github_pat-Starts e
        | inr d ↦ Leaks-at anthropic_key blob anthropic_key-Starts (ground arith)
      ]
    ]
  ]
]

-- A pattern that matches where the secret stands is found.
secret-found :
    (m : Text → Option ⊤) (before secret s : Text) (blob : Text)
    → blob ≡ before ++ (secret ++ s)
    → is_some (m (secret ++ s)) ≡ true
    → is_some (search_from m blob) ≡ true
secret-found m before secret s blob e h =
    ap (λ (v : Text). is_some (search_from m v)) e ∙ search_from-found m before (secret ++ s) h

Leaks-any_found : (blob : Text) → Leaks blob → any_found patterns blob ≡ true
Leaks-any_found blob l = found_by l.known
  where
    at_ :
        (m : Text → Option ⊤)
        → is_some (m (l.secret ++ l.after)) ≡ true
        → is_some (search_from m blob) ≡ true
    at_ m h = secret-found m l.before l.secret l.after blob l.whole h

    found_by : Secret l.secret → any_found patterns blob ≡ true
    found_by (aws w e a n) = ground (
      arith,
      at_ aws_key (ap (λ v. is_some (aws_key (v ++ l.after))) e ∙ aws_key-found w l.after a n),
    )
    found_by (key_file kind e k) = ground (
      arith,
      at_ private_key
          (ap (λ v. is_some (private_key (v ++ l.after))) e ∙ private_key-found kind l.after k),
    )
    found_by (token w e a n) = ground (
      arith,
      at_ github_token
          (ap (λ v. is_some (github_token (v ++ l.after))) e ∙ github_token-found w l.after a n),
    )
    found_by (pat w e a n) = ground (
      arith,
      at_ github_pat
          (ap (λ v. is_some (github_pat (v ++ l.after))) e ∙ github_pat-found w l.after a n),
    )
    found_by (anthropic w e a n) = ground (
      arith,
      at_ anthropic_key
          (ap (λ v. is_some (anthropic_key (v ++ l.after))) e ∙ anthropic_key-found w l.after a n),
    )

-- The scan refuses exactly the texts that hold a secret of one of the five kinds, wherever it
-- stands in them.
pub scan-Leaks : (repr : Text → Text) (blob : Text) → IsDeny (scan repr patterns blob) ↔ Leaks blob
scan-Leaks repr blob =
    let (sound, complete) = scan-any_found repr patterns blob in
    (λ d. any_found-Leaks blob (sound d), λ l. complete (Leaks-any_found blob l))

-- The texts that the loop over the keys gathers from a dict.
texts_of : List Text → Fields → List Text
texts_of [] fs = []
texts_of (key ∷ keys) fs = candidate (find_field key fs) ++ texts_of keys fs

candidates-object :
    (keys : List Text) (fs : Fields) → candidates keys (object fs) ≡ returns (texts_of keys fs)
unfolding candidates texts_of get
candidates-object [] fs = refl
candidates-object (key ∷ keys) fs = rw (candidates-object keys fs) refl

texts_of-held :
    (keys : List Text) (fs : Fields) (key s : Text)
    → contains keys key ≡ true
    → find_field key fs ≡ some (string s)
    → contains (texts_of keys fs) s ≡ true
unfolding texts_of
texts_of-held [] fs key s h e = cc
texts_of-held (k ∷ keys) fs key s h e = elim (text_eq.dec key k) [
  | yes same_ ↦ rw (← same_, e) (ground arith)
  | no other ↦
      let rec = texts_of-held keys fs key s (ground arith) e in
      contains-append (candidate (find_field k fs)) (texts_of keys fs) s ∙ ground (arith, rec)
]

regroup : (t sep a r : Text) → t ++ (sep ++ (a ++ r)) ≡ (t ++ (sep ++ a)) ++ r
regroup t sep a r = simp append_assoc

-- Each text that is joined stands in the whole.
join-part :
    (sep : Text) (texts : List Text) (s : Text)
    → contains texts s ≡ true
    → (a : Text) × (b : Text) × (join sep texts ≡ a ++ (s ++ b))
unfolding join
join-part sep [] s h = cc
join-part sep (t ∷ []) s h = (
  [],
  [],
  sym (append-nil t) ∙ (let same_ : s ≡ t = ground arith in ap (λ (v : Text). v ++ []) (sym same_)),
)
join-part sep (t ∷ u ∷ us) s h = elim (text_eq.dec s t) [
  | yes same_ ↦
      ([], sep ++ join sep (u ∷ us), ap (λ (v : Text). v ++ (sep ++ join sep (u ∷ us))) (sym same_))
  | no other ↦
      let (a, b, e) = join-part sep (u ∷ us) s (ground arith) in
      (t ++ (sep ++ a), b, ap (λ (v : Text). t ++ (sep ++ v)) e ∙ regroup t sep a (s ++ b))
]

Leaks-join :
    (texts : List Text) (s : Text)
    → contains texts s ≡ true
    → Leaks s
    → Leaks (join (codes "\n") texts)
Leaks-join texts s h l =
    let (a, b, e) = join-part (codes "\n") texts s h in
    record {
      before = a ++ l.before;
      secret = l.secret;
      after = l.after ++ b;
      whole = e ∙ (ap (λ (v : Text). a ++ (v ++ b)) l.whole ∙ simp append_assoc);
      known = l.known;
    }

-- A tool call is refused where one of the four texts that are scanned holds a secret, wherever the
-- secret stands in it and whatever else the input has.
pub main-leak :
    (x : Runtime) (raw : Text) (fs args : Fields) (key s : Text)
    → payload_of x raw ≡ returns (object fs)
    → find_field (codes "tool_input") fs ≡ some (object args)
    → contains candidate_keys key ≡ true
    → find_field key args ≡ some (string s)
    → Leaks s
    → (reason : Text) × (main x raw ≡ returns (deny reason))
unfolding main get texts_of
main-leak x raw fs args key s read input listed held l =
    let texts = texts_of candidate_keys args in
    let leaked = Leaks-join texts s (texts_of-held candidate_keys args key s listed held) l in
    let (reason, refused) =
      (scan-Leaks (λ t. x.repr (string t)) (join (codes "\n") texts)).1 leaked in
    (reason, rw (read, input, or_empty-object args, refused) refl)
