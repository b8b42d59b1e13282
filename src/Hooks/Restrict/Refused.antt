-- ===== src/Hooks/Restrict/Refused.antt =====
-- plugins/tf-guardrails/hooks/restrict_paths.py: the paths of the sandbox's own working copy.
use agentic_temporal_wf.Base.{
  true, Option, some, [], ◌∷◌, ◌++◌, ◌≡◌, refl, inl, inr, ap, ◌∙◌, returns, Exception, Bool-cases,
  contains, text_eq, ℕ_discrete,
}
use agentic_temporal_wf.Base.Text.{Text, codes, nonempty}
use agentic_temporal_wf.Base.Json.{
  or_empty-object, Json, Fields, string, object, index, has_key, or_empty, find_field,
}
use agentic_temporal_wf.Base.OsPath.{normpath, abspath}
use agentic_temporal_wf.Hooks.{Decision, deny, Runtime, or_blank}
use agentic_temporal_wf.Hooks.Restrict.{
  check_resolved, check_text, check_path, check_key, check_keys, is_denied_tool, path_keys,
  denied_tools, judge, payload_of, main, run,
}

check_resolved-work :
    (x : Runtime) (p s : Text)
    → (reason : Text) × (check_resolved x p (codes "/work" ++ s) ≡ some reason)
      × (nonempty reason ≡ true)
unfolding check_resolved ℕ_discrete
check_resolved-work x p s = (_, refl, refl)

check_text-work :
    (x : Runtime) (cwd p s : Text)
    → normpath (abspath cwd p) ≡ codes "/work" ++ s
    → (reason : Text) × (check_text x cwd p ≡ some reason) × (nonempty reason ≡ true)
unfolding check_text
check_text-work x cwd p s e =
    let (reason, refused, written) = check_resolved-work x p s in
    (reason, ap (check_resolved x p) e ∙ refused, written)

or_blank-string : (t : Text) → or_blank (some (string t)) ≡ string t
unfolding or_blank
or_blank-string [] = refl
or_blank-string (c ∷ t) = refl

check_path-work :
    (x : Runtime) (cwd p s : Text)
    → normpath (abspath cwd p) ≡ codes "/work" ++ s
    → (reason : Text) × (check_path x cwd (string p) ≡ returns (some reason))
      × (nonempty reason ≡ true)
unfolding check_path
check_path-work x cwd [] s e = (codes "empty path", refl, refl)
check_path-work x cwd (c ∷ p) s e =
    let (reason, refused, written) = check_text-work x cwd (c ∷ p) s e in
    (reason, ap returns refused, written)

check_key_of_field :
    (x : Runtime) (cwd key : Text) (args : Fields) {v : Json}
    → find_field key args ≡ some v
    → check_key x cwd key (object args) ≡ check_path x cwd v
unfolding check_key
check_key_of_field x cwd key args e = rw (check_key, has_key, index, e) refl

run_of_main :
    (describe : Exception → Text) (x : Runtime) (cwd raw : Text) {decision : Decision}
    → main x cwd raw ≡ returns decision
    → run describe x cwd raw ≡ decision
unfolding run
run_of_main describe x cwd raw e = rw (run, e) refl

main_of_fields :
    (x : Runtime) (cwd raw : Text) (fs : Fields)
    → payload_of x raw ≡ some (object fs)
    → main x cwd raw
      ≡ judge x cwd
          (or_blank (find_field (codes "tool_name") fs))
          (or_empty (find_field (codes "tool_input") fs))
unfolding main
main_of_fields x cwd raw fs e = rw (main, e) refl

judge-work :
    (x : Runtime) (cwd tool key p s : Text) (args : Fields)
    → path_keys (string tool) ≡ some (key ∷ [])
    → find_field key args ≡ some (string p)
    → normpath (abspath cwd p) ≡ codes "/work" ++ s
    → (reason : Text) × (judge x cwd (string tool) (object args) ≡ returns (deny reason))
unfolding judge check_keys is_denied_tool
judge-work x cwd tool key p s args listed held e = elim (Bool-cases (contains denied_tools tool)) [
  | inl denied ↦
      (codes "tool " ++ x.repr (string tool) ++ codes " is disabled by policy", rw denied refl)
  | inr free ↦
      let (reason, refused, written) = check_path-work x cwd p s e in
      (
        reason,
        rw (free, listed, check_keys, check_key_of_field x cwd key args held, refused, written)
            refl,
      )
]

-- A tool that takes a path is refused every path of the sandbox's own working copy, which lies at
-- `/work`, whatever the rest of the payload is.
pub run-work :
    (describe : Exception → Text) (x : Runtime) (cwd raw s : Text) (fs args : Fields)
    (tool key p : Text)
    → payload_of x raw ≡ some (object fs)
    → find_field (codes "tool_name") fs ≡ some (string tool)
    → find_field (codes "tool_input") fs ≡ some (object args)
    → path_keys (string tool) ≡ some (key ∷ [])
    → find_field key args ≡ some (string p)
    → normpath (abspath cwd p) ≡ codes "/work" ++ s
    → (reason : Text) × (run describe x cwd raw ≡ deny reason)
run-work describe x cwd raw s fs args tool key p read named input listed held at_work =
    let (reason, refused) = judge-work x cwd tool key p s args listed held at_work in
    (
      reason,
      run_of_main describe x cwd raw (
          main_of_fields x cwd raw fs read
          ∙ (ap
                (λ (o : Option Json).
                  judge x cwd (or_blank o) (or_empty (find_field (codes "tool_input") fs)))
                named
              ∙ (ap (λ (o : Option Json). judge x cwd (or_blank (some (string tool))) (or_empty o))
                    input
                  ∙ (ap (λ (t : Json). judge x cwd t (or_empty (some (object args))))
                        (or_blank-string tool)
                      ∙ (ap (judge x cwd (string tool)) (or_empty-object args) ∙ refused))))),
    )
