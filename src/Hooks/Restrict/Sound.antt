-- ===== src/Hooks/Restrict/Sound.antt =====
-- plugins/tf-guardrails/hooks/restrict_paths.py: the calls that the program lets through.
use mathlib.Core.Path.{subst}
use agentic_temporal_wf.Base.{
  true, false, Option, none, some, List, [], ◌∷◌, ◌≡◌, ◌≢◌, refl, ◌⊎◌, inl, inr, arith, All, ap,
  ◌∙◌, returns, Exception, ◌>>=◌, >>=-eq-returns, Outcome-cases, Option-cases, Bool-cases, text_eq,
  ℕ_discrete,
}
use agentic_temporal_wf.Base.Text.{Text, codes, nonempty}
use agentic_temporal_wf.Base.Json.{
  Json, null, boolean, number, string, array, object, get, index, has_key, or_empty,
}
use agentic_temporal_wf.Base.OsPath.{normpath, abspath}
use agentic_temporal_wf.Hooks.{allow, Runtime, or_blank}
use agentic_temporal_wf.Hooks.Restrict.{
  allowed_prefix, first_denied, denied_within, lstrip_slashes, check_text, check_path, check_key,
  check_keys, is_denied_tool, path_keys, judge, payload_of, main, run,
}
use agentic_temporal_wf.Hooks.Restrict.Laws.{Confined, check_text-Confined}

-- A key of the input of a tool is missing, or names a path of the checkout.
pub data KeyPasses (cwd : Text) (args : Json) (key : Text) : Type 0 where
  missing : has_key args key ≡ returns false → KeyPasses cwd args key
  confined :
      (p : Text)
      → index args key ≡ returns (string p)
      → Confined (normpath (abspath cwd p))
      → KeyPasses cwd args key

-- The tools that take a path, with the key of their input that holds it.
pub data PathTool : Text → Text → Type 0 where
  reads : PathTool (codes "Read") (codes "file_path")
  edits : PathTool (codes "Edit") (codes "file_path")
  edits_many : PathTool (codes "MultiEdit") (codes "file_path")
  writes : PathTool (codes "Write") (codes "file_path")
  greps : PathTool (codes "Grep") (codes "path")
  globs : PathTool (codes "Glob") (codes "path")

-- A call that the hook has no reason to refuse.
pub record Passes (x : Runtime) (cwd raw : Text) : Type 0 where
  pub payload : Json
  pub read : payload_of x raw ≡ some payload
  pub tool : Option Json
  pub tool_read : get payload (codes "tool_name") ≡ returns tool
  pub args : Option Json
  pub args_read : get payload (codes "tool_input") ≡ returns args
  pub not_bash : or_blank tool ≢ string (codes "Bash")
  pub not_fetch : or_blank tool ≢ string (codes "WebFetch")
  pub keys_pass :
      {name key : Text}
      → PathTool name key
      → or_blank tool ≡ string name
      → KeyPasses cwd (or_empty args) key

nonempty_of :
    (t : Text) {reason : Text} → some t ≡ some reason → nonempty t ≡ true → nonempty reason ≡ true
nonempty_of t e h = ground arith

check_text-nonempty :
    (x : Runtime) (cwd p : Text) {reason : Text}
    → check_text x cwd p ≡ some reason
    → nonempty reason ≡ true
unfolding check_text
check_text-nonempty x cwd p h = elim (Option-cases (allowed_prefix (normpath (abspath cwd p)))) [
  | inl outside ↦ nonempty_of _ (rw outside at h) refl
  | inr (rest, matched) ↦ elim (Option-cases (first_denied denied_within (lstrip_slashes rest))) [
    | inl clear ↦ let e = rw (matched, clear) at h in cc (e)
    | inr (pattern_text, denied) ↦ nonempty_of _ (rw (matched, denied) at h) refl
  ]
]

check_path-Confined :
    (x : Runtime) (cwd : Text) (v : Json)
    → check_path x cwd v ≡ returns none
    → (p : Text) × (v ≡ string p) × Confined (normpath (abspath cwd p))
unfolding check_path
check_path-Confined x cwd (string (c ∷ p)) h = (c ∷ p, refl, check_text-Confined x cwd (c ∷ p) (cc))
check_path-Confined x cwd (string []) h = cc
check_path-Confined x cwd null h = cc
check_path-Confined x cwd (boolean b) h = ground (arith, h)
check_path-Confined x cwd (number n) h = ground (arith, h)
check_path-Confined x cwd (array xs) h = ground (arith, h)
check_path-Confined x cwd (object fs) h = ground (arith, h)

check_path-nonempty :
    (x : Runtime) (cwd : Text) (v : Json) {reason : Text}
    → check_path x cwd v ≡ returns (some reason)
    → nonempty reason ≡ true
unfolding check_path
check_path-nonempty x cwd (string (c ∷ p)) h = check_text-nonempty x cwd (c ∷ p) (cc)
check_path-nonempty x cwd (string []) h = ground arith
check_path-nonempty x cwd v h = ground arith

check_key-cases :
    (x : Runtime) (cwd key : Text) (args : Json) (o : Option Text)
    → check_key x cwd key args ≡ returns o
    → (KeyPasses cwd args key) ⊎ ((reason : Text) × (o ≡ some reason) × (nonempty reason ≡ true))
unfolding check_key
check_key-cases x cwd key args o h =
    let (present, found, went) = >>=-eq-returns (has_key args key) _ h in
    elim (Bool-cases present) [
      | inr absent ↦ inl (missing (found ∙ ap returns absent))
      | inl held ↦
          let looked : (index args key >>= check_path x cwd) ≡ returns o = rw held at went in
          let (v, indexed, checked) = >>=-eq-returns (index args key) (check_path x cwd) looked in
          elim (Option-cases o) [
            | inl passed ↦
                let (p, at_p, c) = check_path-Confined x cwd v (checked ∙ ap returns passed) in
                inl (confined p (indexed ∙ ap returns at_p) c)
            | inr (reason, refused) ↦
                inr (reason, refused, check_path-nonempty x cwd v (checked ∙ ap returns refused))
          ]
    ]

check_keys-pass :
    (x : Runtime) (cwd : Text) (keys : List Text) (args : Json)
    → check_keys x cwd keys args ≡ returns allow
    → All (KeyPasses cwd args) keys
unfolding check_keys
check_keys-pass x cwd [] args h = tt
check_keys-pass x cwd (key ∷ keys) args h =
    let (o, checked, went) = >>=-eq-returns (check_key x cwd key args) _ h in
    elim (check_key-cases x cwd key args o checked) [
      | inl passes ↦ (
        passes,
        check_keys-pass x cwd keys args (elim (Option-cases o) [
          | inl e ↦ rw e at went
          | inr (reason, e) ↦ ground (arith, e, went)
        ]),
      )
      | inr (reason, refused, written) ↦ let e = rw (refused, written) at went in cc (e)
    ]

denied-Bash : is_denied_tool (string (codes "Bash")) ≡ returns true
unfolding is_denied_tool text_eq ℕ_discrete
denied-Bash = refl

denied-WebFetch : is_denied_tool (string (codes "WebFetch")) ≡ returns true
unfolding is_denied_tool text_eq ℕ_discrete
denied-WebFetch = refl

judge-allow :
    (x : Runtime) (cwd : Text) (tool args : Json)
    → judge x cwd tool args ≡ returns allow
    → (is_denied_tool tool ≡ returns false)
      × ((path_keys tool ≡ none)
          ⊎ ((keys : List Text) × (path_keys tool ≡ some keys) × All (KeyPasses cwd args) keys))
unfolding judge
judge-allow x cwd tool args h =
    let (denied, known, went) = >>=-eq-returns (is_denied_tool tool) _ h in
    elim (Bool-cases denied) [
      | inl refused ↦ let e = rw refused at went in cc (e)
      | inr free ↦ (
        known ∙ ap returns free,
        elim (Option-cases (path_keys tool)) [
          | inl unknown ↦ inl unknown
          | inr (keys, listed) ↦
              inr (keys, listed, check_keys-pass x cwd keys args (rw (free, listed) at went))
        ],
      )
    ]

path_keys-PathTool :
    {name key : Text} → PathTool name key → path_keys (string name) ≡ some (key ∷ [])
unfolding path_keys text_eq ℕ_discrete
path_keys-PathTool reads = refl
path_keys-PathTool edits = refl
path_keys-PathTool edits_many = refl
path_keys-PathTool writes = refl
path_keys-PathTool greps = refl
path_keys-PathTool globs = refl

keys_pass-PathTool :
    (cwd : Text) (tool args : Json)
    → (path_keys tool ≡ none)
      ⊎ ((keys : List Text) × (path_keys tool ≡ some keys) × All (KeyPasses cwd args) keys)
    → {name key : Text} → PathTool name key
    → tool ≡ string name
    → KeyPasses cwd args key
keys_pass-PathTool cwd tool args (inl unknown) {name} {key} t e =
    let known = path_keys-PathTool t in cc
keys_pass-PathTool cwd tool args (inr (keys, listed, pass)) {name} {key} t e =
    let known = path_keys-PathTool t in
    let same : keys ≡ key ∷ [] = cc in (subst (All (KeyPasses cwd args)) same pass).0

main_of_allow :
    (describe : Exception → Text) (x : Runtime) (cwd raw : Text)
    → run describe x cwd raw ≡ allow
    → main x cwd raw ≡ returns allow
unfolding run
main_of_allow describe x cwd raw h = elim (Outcome-cases (main x cwd raw)) [
  | inl (decision, e) ↦ let d = rw (e, run) at h in e ∙ ap returns d
  | inr (exception, e) ↦ let d = rw (e, run) at h in cc (d)
]

-- Whatever the standard input holds, a call that the hook lets through has a payload, is a call of
-- neither Bash nor WebFetch, and, where the tool is Read, Edit, MultiEdit, Write, Grep or Glob, the
-- path in its input (`file_path`, for the last two `path`) is missing or is a text that names, once
-- it is normalized, a place in the checkout of some run outside `.git/hooks`, `.github/workflows`
-- and `.claude`. Of other tools and other keys nothing is said.
pub run-allow :
    (describe : Exception → Text) (x : Runtime) (cwd raw : Text)
    → run describe x cwd raw ≡ allow
    → Passes x cwd raw
unfolding main
run-allow describe x cwd raw h =
    let passed = main_of_allow describe x cwd raw h in
    elim (Option-cases (payload_of x raw)) [
      | inl malformed ↦ let e = rw (malformed, main) at passed in cc (e)
      | inr (payload, read) ↦
          let at_payload = rw (read, main) at passed in
          let (tool, tool_read, went) =
            >>=-eq-returns (get payload (codes "tool_name")) _ at_payload in
          let (args, args_read, judged) =
            >>=-eq-returns (get payload (codes "tool_input")) _ went in
          let (free, keys) = judge-allow x cwd (or_blank tool) (or_empty args) judged in
          record {
            payload = payload;
            read = read;
            tool = tool;
            tool_read = tool_read;
            args = args;
            args_read = args_read;
            not_bash = λ e. let f = rw (e, denied-Bash) at free in cc (f);
            not_fetch = λ e. let f = rw (e, denied-WebFetch) at free in cc (f);
            keys_pass =
                λ {name} {key} t e. keys_pass-PathTool cwd (or_blank tool) (or_empty args) keys t e;
          }
    ]
