-- ===== src/Iteration/Activity/Fuel.antt =====
-- src/activities/agent_iteration.py: the fuel of the search for the plan.
use agentic_temporal_wf.Base.{
  ℕ, zero, suc, ◌+◌, ◌≤◌, ◌<◌, Bool, Option, some, [], ◌∷◌, ◌≡◌, refl, ap, ◌∙◌, arith, inl, inr,
  Option-cases, length, length-append,
}
use agentic_temporal_wf.Base.Text.{Text, codes}
use agentic_temporal_wf.Base.Regex.{star, literal, same}
use agentic_temporal_wf.Base.Regex.Laws.{repeat-Took}
use agentic_temporal_wf.Iteration.Activity.{not_brace, match_tail, last_of, last_match}

literal-rest {ℓ} :
    {R : Type ℓ} (w s : Text) (k : Text → Option R) {r : R}
    → literal same w s k ≡ some r
    → (rest : Text) × (k rest ≡ some r) × (length rest + length w ≡ length s)
unfolding literal
literal-rest [] s k h = (s, h, omega arith)
literal-rest (c ∷ w) [] k h = cc
literal-rest (c ∷ w) (d ∷ s) k h =
    let (rest, e, n) = literal-rest w s k (ground arith) in (rest, e, omega (arith, n))

star-rest {ℓ} :
    {R : Type ℓ} (p : ℕ → Bool) (s : Text) (k : Text → Text → Option R) {r : R}
    → star p s k ≡ some r
    → (run : Text) × (rest : Text) × (k run rest ≡ some r) × (length rest ≤ length s)
unfolding star
star-rest p s k h =
    let t = repeat-Took p k 0 (length s) [] s h in
    let n = ap (λ (x : Text). length x) t.whole ∙ length-append t.run t.rest in
    (t.run, t.rest, t.went_on, omega (arith, n))

second_of : {a b c d : Text} → ◌≡◌ {A = Option (Text × Text)} (some (a, b)) (some (c, d)) → b ≡ d
second_of e = cc

match_tail-shorter :
    (s : Text) {m rest : Text} → match_tail s ≡ some (m, rest) → length rest < length s
unfolding match_tail
match_tail-shorter s h =
    let (s1, e1, n1) = literal-rest (codes "{") s _ h in
    let (before, s2, e2, n2) = star-rest not_brace s1 _ e1 in
    let (s3, e3, n3) = literal-rest (codes "\"action\"") s2 _ e2 in
    let (after, s4, e4, n4) = star-rest not_brace s3 _ e3 in
    let (s5, e5, n5) = literal-rest (codes "}") s4 _ e4 in
    let n6 = ap (λ (x : Text). length x) (second_of e5) in omega (arith, n1, n2, n3, n4, n5, n6)

-- The search for the last match has enough fuel if it has more than there are characters: from there
-- on the result does not depend on the fuel.
pub last_match-fuel :
    (f g : ℕ) (s : Text) → length s < f → length s < g → last_match f s ≡ last_match g s
unfolding last_match
last_match-fuel zero g s hf hg = absurd (omega (arith, hf))
last_match-fuel (suc f) zero s hf hg = absurd (omega (arith, hg))
last_match-fuel (suc f) (suc g) [] hf hg = refl
last_match-fuel (suc f) (suc g) (c ∷ s) hf hg = elim (Option-cases (match_tail (c ∷ s))) [
  | inl missing ↦
      rw (missing, last_match) (last_match-fuel f g s (omega (arith, hf)) (omega (arith, hg)))
  | inr ((m, rest), found) ↦
      let shorter = match_tail-shorter (c ∷ s) found in
      let later =
        last_match-fuel f g rest (omega (arith, hf, shorter)) (omega (arith, hg, shorter)) in
      rw (found, last_match) (ap (λ (x : Option Text). last_of x m) later)
]
