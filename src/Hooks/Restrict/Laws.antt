-- ===== src/Hooks/Restrict/Laws.antt =====
-- plugins/tf-guardrails/hooks/restrict_paths.py: the paths that `_check_path` lets through.
use agentic_temporal_wf.Base.{
  true, false, none, List, [], ◌∷◌, ◌++◌, ◌≡◌, refl, sym, ap, ◌∙◌, ◌⊎◌, inl, inr, arith, nat_eq,
  text_eq, Option-cases, All, append_assoc, length, ◌≤◌, ℕ_discrete, ◌≢◌,
}
use mathlib.Core.Path.{subst}
use mathlib.Core.List.{head-eq_of_cons-eq, tail-eq_of_cons-eq}
use agentic_temporal_wf.Base.Text.{Text, codes, join, nonempty, split_from}
use agentic_temporal_wf.Base.Regex.{literal, same}
use agentic_temporal_wf.Base.OsPath.{slash, normpath, abspath}
use agentic_temporal_wf.Base.OsPath.Laws.{
  not_slash, NoSlash, IsName, Normal, relative, doubled, rooted, normpath-Normal, split_from-join,
  All-NoSlash, join-split_from,
}
use agentic_temporal_wf.Hooks.{Runtime}
use agentic_temporal_wf.Hooks.Restrict.{
  separator, allowed_prefix, denied_within, lstrip_slashes, first_denied, check_text,
}
use agentic_temporal_wf.Hooks.Restrict.Pattern.{
  Prefixed, Ends, allowed_prefix-Prefixed, split-prefix, protected, under, join-under, stem-matched,
}

first_denied-none :
    (s : Text)
    → first_denied denied_within s ≡ none
    → (literal same (codes ".git/hooks") s separator ≡ none)
      × (literal same (codes ".github/workflows") s separator ≡ none)
      × (literal same (codes ".claude") s separator ≡ none)
unfolding first_denied
first_denied-none s h = ground arith

lstrip-join :
    (xs : List Text) → All IsName xs → lstrip_slashes (join (codes "/") xs) ≡ join (codes "/") xs
unfolding join lstrip_slashes not_slash
lstrip-join [] h = refl
lstrip-join ([] ∷ xs) h = cc (h.0.some_text)
lstrip-join ((c ∷ x) ∷ []) h = let n = h.0.no_slash in ground (arith, n)
lstrip-join ((c ∷ x) ∷ y ∷ xs) h = let n = h.0.no_slash in ground (arith, n)

stem_free :
    (p a : Text) (xs : List Text)
    → literal same p (join (codes "/") (a ∷ xs)) separator ≡ none
    → a ≢ p
stem_free p a xs h e = stem-matched p xs (
    ap (λ (v : Text). literal same p v separator)
      (sym (join-under p xs) ∙ ap (λ (v : Text). join (codes "/") (v ∷ xs)) (sym e))
    ∙ h)

pair_free :
    (p q a b : Text) (xs : List Text)
    → literal same (p ++ (slash ∷ q)) (join (codes "/") (a ∷ b ∷ xs)) separator ≡ none
    → a ≡ p
    → b ≢ q
unfolding under join
pair_free p q a b xs h ea eb = stem-matched (p ++ (slash ∷ q)) xs (
    ap (λ (v : Text). literal same (p ++ (slash ∷ q)) v separator)
      (append_assoc p (slash ∷ q) (under xs)
        ∙ (ap (λ (v : Text). p ++ (slash ∷ v)) (sym (join-under q xs))
            ∙ (sym (join-under p (q ∷ xs))
                ∙ (ap (λ (v : Text). join (codes "/") (v ∷ q ∷ xs)) (sym ea)
                    ∙ ap (λ (v : Text). join (codes "/") (a ∷ v ∷ xs)) (sym eb)))))
    ∙ h)

-- Where no pattern matches, no protected subtree is named.
open_of_none :
    (xs : List Text)
    → first_denied denied_within (join (codes "/") xs) ≡ none
    → protected xs ≡ false
open_of_none [] h = refl
open_of_none (a ∷ []) h =
    let (_, _, claude) = first_denied-none _ h in
    let free = stem_free (codes ".claude") a [] claude in ground (arith, free)
open_of_none (a ∷ b ∷ xs) h =
    let (hooks, workflows, claude) = first_denied-none _ h in
    let free = stem_free (codes ".claude") a (b ∷ xs) claude in
    let free_hooks = pair_free (codes ".git") (codes "hooks") a b xs hooks in
    let free_workflows = pair_free (codes ".github") (codes "workflows") a b xs workflows in
    ground (arith, free, free_hooks, free_workflows)

-- A path of a checkout that is not protected, by its components. A line feed may end the path of
-- the checkout itself.
pub record Confined (path : Text) : Type 0 where
  pub wid : Text
  pub checkout : Text
  pub below : List Text
  pub whole :
      path ≡ slash ∷ join (codes "/") (codes "tmp" ∷ (codes "autofix-" ++ wid) ∷ checkout ∷ below)
  pub some_id : 1 ≤ length wid
  pub names : All IsName ((codes "autofix-" ++ wid) ∷ below)
  pub repo : (checkout ≡ codes "repo") ⊎ ((checkout ≡ codes "repo\n") × (below ≡ []))
  pub unprotected : protected below ≡ false

names-of_split :
    (names : List Text) (s : Text)
    → All IsName names
    → join (codes "/") names ≡ s
    → nonempty s ≡ true
    → names ≡ split_from slash [] s
unfolding join
names-of_split [] s h e n = cc
names-of_split (x ∷ xs) s h e n = rw (← e) (sym (split_from-join x xs (All-NoSlash (x ∷ xs) h)))

-- The matched path starts with a slash and goes on by `tmp`, so it is neither relative nor doubled.
rooted_of_prefixed :
    {s : Text} (t : Text)
    → s ≡ codes "/tmp/autofix-" ++ t
    → Normal s
    → (names : List Text) × All IsName names × (join (codes "/") names ≡ codes "tmp/autofix-" ++ t)
unfolding not_slash ℕ_discrete
rooted_of_prefixed t e (relative r) = let n : not_slash slash ≡ true = rw e at r in cc (n)
rooted_of_prefixed t e (doubled s' d) =
    let n = head-eq_of_cons-eq (tail-eq_of_cons-eq (sym d ∙ e)) in absurd (omega arith)
rooted_of_prefixed t e (rooted names h r) = (names, h, tail-eq_of_cons-eq (sym r ∙ e))

-- The names of a path that the prefix pattern matches.
names-prefixed :
    (names : List Text) (wid tail : Text)
    → All IsName names
    → NoSlash wid
    → join (codes "/") names ≡ codes "tmp/autofix-" ++ (wid ++ (codes "/repo" ++ tail))
    → names ≡ codes "tmp" ∷ (codes "autofix-" ++ wid) ∷ split_from slash [] (codes "repo" ++ tail)
names-prefixed names wid tail h n e = names-of_split names _ h e refl ∙ split-prefix wid tail n

-- The components from the checkout on.
record Tail (tail rest : Text) : Type 0 where
  checkout : Text
  below : List Text
  comps : split_from slash [] (codes "repo" ++ tail) ≡ checkout ∷ below
  joined : join (codes "/") below ≡ rest ⊎ (below ≡ [])
  repo : (checkout ≡ codes "repo") ⊎ ((checkout ≡ codes "repo\n") × (below ≡ []))

Ends-Tail : (tail rest : Text) → Ends tail rest → Tail tail rest
unfolding split_from ℕ_discrete
Ends-Tail tail rest (inl e) = record {
  checkout = codes "repo";
  below = split_from slash [] rest;
  comps = rw e refl;
  joined = inl (join-split_from [] rest);
  repo = inl refl;
}
Ends-Tail tail rest (inr (e, inl at_end)) = record {
  checkout = codes "repo";
  below = [];
  comps = rw (e, at_end) refl;
  joined = inr refl;
  repo = inl refl;
}
Ends-Tail tail rest (inr (e, inr line_feed)) = record {
  checkout = codes "repo\n";
  below = [];
  comps = rw (e, line_feed) refl;
  joined = inr refl;
  repo = inr (refl, refl);
}

-- What is left once the slashes at the start are gone is clear of the protected subtrees.
below_open :
    (below : List Text) (rest : Text)
    → All IsName below
    → (join (codes "/") below ≡ rest) ⊎ (below ≡ [])
    → first_denied denied_within (lstrip_slashes rest) ≡ none
    → protected below ≡ false
below_open below rest h (inr nil) n = rw nil refl
below_open below rest h (inl e) n =
    open_of_none below
      (ap (first_denied denied_within) (sym (lstrip-join below h) ∙ ap lstrip_slashes e) ∙ n)

confined :
    (path rest : Text)
    → Normal path
    → Prefixed path rest
    → first_denied denied_within (lstrip_slashes rest) ≡ none
    → Confined path
confined path rest normal p n =
    let (names, h, e) = rooted_of_prefixed _ p.whole normal in
    let t = Ends-Tail p.tail rest p.ends in
    let parts : names ≡ codes "tmp" ∷ (codes "autofix-" ++ p.wid) ∷ t.checkout ∷ t.below =
      names-prefixed names p.wid p.tail h p.no_slash e
      ∙ ap (λ (v : List Text). codes "tmp" ∷ (codes "autofix-" ++ p.wid) ∷ v) t.comps in
    let all_names = subst (All IsName) parts h in
    record {
      wid = p.wid;
      checkout = t.checkout;
      below = t.below;
      whole =
          p.whole
          ∙ (ap (λ (v : Text). slash ∷ v) (sym e)
              ∙ ap (λ (v : List Text). slash ∷ join (codes "/") v) parts);
      some_id = p.some_text;
      names = (all_names.1.0, all_names.1.1.1);
      repo = t.repo;
      unprotected = below_open t.below rest all_names.1.1.1 t.joined n;
    }

-- A path that passes is that of a checkout, outside the protected subtrees.
pub check_text-Confined :
    (x : Runtime) (cwd p : Text) → check_text x cwd p ≡ none → Confined (normpath (abspath cwd p))
unfolding check_text
check_text-Confined x cwd p h = elim (Option-cases (allowed_prefix (normpath (abspath cwd p)))) [
  | inl outside ↦ let e = rw outside at h in cc (e)
  | inr (rest, matched) ↦ elim (Option-cases (first_denied denied_within (lstrip_slashes rest))) [
    | inl clear ↦
        confined _ rest (normpath-Normal (abspath cwd p)) (allowed_prefix-Prefixed _ rest matched)
          clear
    | inr (pattern_text, denied) ↦ let e = rw (matched, denied) at h in cc (e)
  ]
]
