-- ===== src/Workdir/Laws.antt =====
-- src/tools/_workdir.py: where a joined path lies.
use agentic_temporal_wf.Base.{
  true, ◌++◌, ◌∷◌, [], ◌≡◌, refl, ◌∙◌, ◌⊎◌, inl, inr, arith, Bool-cases, returns, raises,
  value_error, sym, ◌==◌, text_eq, nat_eq, append_assoc, not, ◌&&◌, if◌then◌else◌,
}
use mathlib.Core.Path.{subst}
use agentic_temporal_wf.Base.Text.{Text, codes, starts_with}
use agentic_temporal_wf.Base.OsPath.{join_path}
use agentic_temporal_wf.Workdir.{safe_join}

-- A path that is the directory or lies below it.
abbrev pub Within : Text → Text → Type 0
Within root path = (path ≡ root) ⊎ ((below : Text) × (path ≡ root ++ (codes "/" ++ below)))

starts_with-true : (s p : Text) → starts_with s p ≡ true → (t : Text) × (s ≡ p ++ t)
unfolding starts_with
starts_with-true s [] h = (s, refl)
starts_with-true [] (d ∷ p) h = cc
starts_with-true (c ∷ s) (d ∷ p) h =
    let (t, e) = starts_with-true s p (ground arith) in (t, ground (arith, e))

kept :
    (root candidate : Text) {path : Text}
    → (if not (starts_with candidate (root ++ codes "/")) && not (candidate == root)
        then raises value_error
        else returns candidate)
      ≡ returns path
    → Within root candidate × (path ≡ candidate)
kept root candidate h = elim (Bool-cases (starts_with candidate (root ++ codes "/"))) [
  | inl below ↦
      let (t, e) = starts_with-true candidate (root ++ codes "/") below in
      (inr (t, e ∙ append_assoc root (codes "/") t), ground arith)
  | inr other ↦ (inl (ground arith), ground arith)
]

pub safe_join-Within :
    (resolve : Text → Text) (workdir relative : Text) {path : Text}
    → safe_join resolve workdir relative ≡ returns path
    → Within (resolve workdir) path × (path ≡ resolve (join_path (resolve workdir) relative))
unfolding safe_join
safe_join-Within resolve workdir relative {path} h =
    let (within_, same_) =
      kept (resolve workdir) (resolve (join_path (resolve workdir) relative)) h in
    (subst (Within (resolve workdir)) (sym same_) within_, same_)
