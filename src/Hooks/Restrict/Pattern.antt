-- ===== src/Hooks/Restrict/Pattern.antt =====
-- plugins/tf-guardrails/hooks/restrict_paths.py: what its patterns say of a path.
use agentic_temporal_wf.Base.{
  Bool, false, Option, none, some, List, [], ◌∷◌, ◌++◌, ◌&&◌, ◌||◌, ◌≡◌, refl, sym, ap, ◌∙◌, ◌⊎◌,
  inl, inr, arith, ◌==◌, nat_eq, text_eq, Bool-cases, append-nil, length, ◌≤◌, ℕ_discrete, ◌≢◌,
}
use agentic_temporal_wf.Base.Text.{Text, codes, join, split_from}
use agentic_temporal_wf.Base.Regex.{literal, same, plus, at_end}
use agentic_temporal_wf.Base.Regex.Laws.{repeat-Took}
use agentic_temporal_wf.Base.OsPath.{slash}
use agentic_temporal_wf.Base.OsPath.Laws.{not_slash, NoSlash, split_from-append, split_from-close}
use agentic_temporal_wf.Hooks.Restrict.{separator, allowed_prefix}

-- A pattern of literal characters takes them from the start of the text, and only them.
pub literal-append {ℓ} :
    {R : Type ℓ} (p s : Text) (k : Text → Option R) → literal same p (p ++ s) k ≡ k s
unfolding literal same
literal-append [] s k = refl
literal-append (c ∷ p) s k = ground (arith, literal-append p s k)

pub literal_prefix {ℓ} :
    {R : Type ℓ} (p s : Text) (k : Text → Option R) {r : R}
    → literal same p s k ≡ some r
    → (t : Text) × (s ≡ p ++ t) × (k t ≡ some r)
unfolding literal same
literal_prefix [] s k h = (s, refl, h)
literal_prefix (c ∷ p) [] k h = cc
literal_prefix (c ∷ p) (d ∷ s) k h = elim (Bool-cases (c == d)) [
  | inr other ↦ let e = rw other at h in cc (e)
  | inl eq ↦
      let (t, split_, went) = literal_prefix p s k (rw eq at h) in (t, ground (arith, split_), went)
]

-- `(?:/|$)` stands before a slash, at the end, or before a line feed at the end.
abbrev pub Ends : Text → Text → Type 0
Ends s rest = (s ≡ slash ∷ rest) ⊎ ((s ≡ rest) × ((rest ≡ []) ⊎ (rest ≡ 10 ∷ [])))

separator-Ends : (s rest : Text) → separator s ≡ some rest → Ends s rest
unfolding separator at_end literal same
separator-Ends [] rest h = inr (cc, inl (cc))
separator-Ends (c ∷ []) rest h = elim (Bool-cases (b'/' == c)) [
  | inl eq ↦ inl (ground arith)
  | inr ne ↦ inr (ground arith, inr (ground arith))
]
separator-Ends (c ∷ d ∷ s) rest h = inl (ground arith)

-- What the prefix pattern says of a text that it matches.
pub record Prefixed (s rest : Text) : Type 0 where
  pub wid : Text
  pub tail : Text
  pub whole : s ≡ codes "/tmp/autofix-" ++ (wid ++ (codes "/repo" ++ tail))
  pub no_slash : NoSlash wid
  pub some_text : 1 ≤ length wid
  pub ends : Ends tail rest

pub allowed_prefix-Prefixed : (s rest : Text) → allowed_prefix s ≡ some rest → Prefixed s rest
unfolding allowed_prefix plus
allowed_prefix-Prefixed s rest h =
    let (t, at_t, matched) = literal_prefix (codes "/tmp/autofix-") s _ h in
    let run = repeat-Took not_slash _ 1 (length t) [] t matched in
    let (u, at_u, ended) = literal_prefix (codes "/repo") run.rest separator run.went_on in
    record {
      wid = run.run;
      tail = u;
      whole =
          at_t
          ∙ ap (λ (v : Text). codes "/tmp/autofix-" ++ v)
              (run.whole ∙ ap (λ (v : Text). run.run ++ v) at_u);
      no_slash = run.of_class;
      some_text = run.at_least;
      ends = separator-Ends u rest ended;
    }

pub split-prefix :
    (wid tail : Text)
    → NoSlash wid
    → split_from slash [] (codes "tmp/autofix-" ++ (wid ++ (codes "/repo" ++ tail)))
      ≡ codes "tmp" ∷ (codes "autofix-" ++ wid) ∷ split_from slash [] (codes "repo" ++ tail)
unfolding not_slash ℕ_discrete
split-prefix wid tail h =
    split_from-append [] (codes "tmp") (codes "/autofix-" ++ (wid ++ (codes "/repo" ++ tail))) refl
    ∙ (split_from-close (codes "tmp") (codes "autofix-" ++ (wid ++ (codes "/repo" ++ tail)))
        ∙ ap (λ (t : List Text). codes "tmp" ∷ t)
            (split_from-append [] (codes "autofix-") (wid ++ (codes "/repo" ++ tail)) refl
              ∙ (split_from-append (codes "autofix-") wid (codes "/repo" ++ tail) h
                  ∙ split_from-close (codes "autofix-" ++ wid) (codes "repo" ++ tail))))

-- The subtrees of the checkout that stay closed to the agent, by their components.
abbrev pub protected : List Text → Bool
protected [] = false
protected (a ∷ []) = a == codes ".claude"
protected (a ∷ b ∷ _) =
    a == codes ".claude"
    || (a == codes ".git" && b == codes "hooks")
    || (a == codes ".github" && b == codes "workflows")

unfoldable pub under : List Text → Text
under [] = []
under (y ∷ ys) = slash ∷ join (codes "/") (y ∷ ys)

pub join-under : (x : Text) (xs : List Text) → join (codes "/") (x ∷ xs) ≡ x ++ under xs
unfolding join under
join-under x [] = sym (append-nil x)
join-under x (y ∷ ys) = refl

pub stem-matched : (p : Text) (xs : List Text) → literal same p (p ++ under xs) separator ≢ none
unfolding under separator at_end literal same ℕ_discrete
stem-matched p [] h = cc (literal-append p [] separator)
stem-matched p (y ∷ ys) h = cc (literal-append p (slash ∷ join (codes "/") (y ∷ ys)) separator)
