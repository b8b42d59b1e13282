-- ===== src/Allowlist/Laws.antt =====
-- src/repo_allowlist.py: `from_env` and `check`, on lists of slugs.
use agentic_temporal_wf.Base.{ℕ, Bool, true, false, none, some, List, [], ◌∷◌, ◌++◌}
use agentic_temporal_wf.Base.{
  ◌≡◌, refl, ap, ◌∙◌, ◌↔◌, ℕ_discrete, arith, append_assoc, append-nil, returns, raises,
}
use agentic_temporal_wf.Base.{repo_denied, contains, text_eq, nat_eq, ◌==◌, all, All, not}
use agentic_temporal_wf.Base.Text.{Text, codes, split_from, strip, nonempty, join}
use agentic_temporal_wf.Allowlist.{trimmed, env_items, from_env, slug, check}

abbrev not_comma : ℕ → Bool
not_comma c = not (c == b',')

-- A text that stands for itself between commas: it has no comma, is not empty, and neither begins
-- nor ends with white space.
pub record IsItem (s : Text) : Type 0 where
  pub no_comma : all not_comma s ≡ true
  pub filled : nonempty s ≡ true
  pub stripped : strip s ≡ s

split_from-last : (cur s : Text) → all not_comma s ≡ true → split_from b',' cur s ≡ (cur ++ s) ∷ []
unfolding split_from
split_from-last cur [] h = rw append-nil
split_from-last cur (c ∷ s) h =
    ground (arith, split_from-last (cur ++ c ∷ []) s, append_assoc cur (c ∷ []) s)

split_from-item :
    (cur s rest : Text)
    → all not_comma s ≡ true
    → split_from b',' cur (s ++ b',' ∷ rest) ≡ (cur ++ s) ∷ split_from b',' [] rest
unfolding split_from ℕ_discrete
split_from-item cur [] rest h = rw append-nil
split_from-item cur (c ∷ s) rest h =
    ground (arith, split_from-item (cur ++ c ∷ []) s rest, append_assoc cur (c ∷ []) s)

split-join :
    (x : Text) (xs : List Text)
    → All IsItem (x ∷ xs)
    → split_from b',' [] (join (codes ",") (x ∷ xs)) ≡ x ∷ xs
unfolding join
split-join x [] h = split_from-last [] x h.0.no_comma
split-join x (y ∷ ys) h =
    split_from-item [] x (join (codes ",") (y ∷ ys)) h.0.no_comma
    ∙ ap (λ (rest : List Text). x ∷ rest) (split-join y ys h.1)

trimmed-items : (xs : List Text) → All IsItem xs → trimmed xs ≡ xs
unfolding trimmed
trimmed-items [] h = refl
trimmed-items (x ∷ xs) h =
    let s = h.0.stripped in let f = h.0.filled in rw (s, f) (λ i. x ∷ trimmed-items xs h.1 i)

-- A variable that lists items, separated by commas, is read as just those items.
pub env_items-join :
    (x : Text) (xs : List Text)
    → All IsItem (x ∷ xs)
    → env_items (some (join (codes ",") (x ∷ xs))) ≡ x ∷ xs
unfolding env_items
env_items-join x xs h = rw (split-join x xs h) (trimmed-items (x ∷ xs) h)

-- With `ALLOWED_REPOS` set to a comma-separated list of slugs, `check` passes a repository exactly
-- if its slug is listed, and raises `RepoDenied` exactly if not; with the variable unset or empty
-- it raises for every repository.
pub check-listed :
    (owner repo x : Text) (xs : List Text)
    → All IsItem (x ∷ xs)
    → ((check (from_env (some (join (codes ",") (x ∷ xs)))) owner repo ≡ returns tt)
        ↔ (contains (x ∷ xs) (slug owner repo) ≡ true))
      × ((check (from_env (some (join (codes ",") (x ∷ xs)))) owner repo ≡ raises repo_denied)
          ↔ (contains (x ∷ xs) (slug owner repo) ≡ false))
      × (check (from_env none) owner repo ≡ raises repo_denied)
      × (check (from_env (some [])) owner repo ≡ raises repo_denied)
unfolding check from_env strip
check-listed owner repo x xs h =
    let e = env_items-join x xs h in (ground (arith, e), ground (arith, e), refl, refl)
