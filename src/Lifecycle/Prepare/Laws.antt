-- ===== src/Lifecycle/Prepare/Laws.antt =====
-- src/activities/lifecycle.py: the commands of `prepare_workdir`.
use agentic_temporal_wf.Base.{
  true, false, List, [], ◌∷◌, ◌++◌, ◌≡◌, refl, ap, ◌∙◌, ◌⊎◌, inl, inr, ◌==◌, nat_eq, Bool-cases,
  Option-cases, none, some, if◌then◌else◌,
}
use agentic_temporal_wf.Base.{Outcome, Exception, returns, raises, ⊤}
use agentic_temporal_wf.Base.Text.{Text, codes, nonempty}
use agentic_temporal_wf.Lifecycle.Git.{
  Arguments, Shell, Script, Ran, after_commands, git_network_args, run_command, run_git,
}
use agentic_temporal_wf.Lifecycle.Prepare.{
  Workdir, fast_clone, plain_clone, setup, run_all, clone_again, clone, prepare_workdir_at,
}

-- A script that raised, or that ran all of `done` and returned.
abbrev RanAll : {W : Type 0} → List Arguments → Ran W ⊤ → Type 0
RanAll done ran =
    ((e : Exception) × (ran.result ≡ raises e))
    ⊎ ((ran.result ≡ returns tt) × (ran.commands ≡ done))

module _ {W : Type 0} where
  after_commands-RanAll :
      {A : Type 0} (first done : List Arguments) (w : W) (m : Outcome A) (f : A → Script W ⊤)
      → ((c : A) → RanAll done (f c w))
      → RanAll (first ++ done) (after_commands first w m f)
  after_commands-RanAll first done w (raises e) f h = inl (e, refl)
  after_commands-RanAll first done w (returns c) f h = elim (h c) [
    | inl (e, raised) ↦ inl (e, raised)
    | inr (returned, ran) ↦ inr (returned, ap (λ (as' : List Arguments). first ++ as') ran)
  ]

  run_all-RanAll :
      (shell : Shell W) (args : List Arguments) (w : W) → RanAll args (run_all shell args w)
  unfolding run_all
  run_all-RanAll shell [] w = inr (refl, refl)
  run_all-RanAll shell (a ∷ args) w =
      let ran = run_git shell a w in
      after_commands-RanAll (a ∷ []) args ran.world ran.result (λ _. run_all shell args)
        λ _. run_all-RanAll shell args ran.world

-- The commands of a clone, with and without the branch, and those that follow it, written out.
abbrev pub clone_of_branch : (Text → Text) → Workdir → Arguments
clone_of_branch encode w =
    git_network_args encode
      (codes "clone"
        ∷ codes "--depth=1"
        ∷ codes "--single-branch"
        ∷ codes "--branch"
        ∷ w.head_ref
        ∷ codes "--filter=blob:none"
        ∷ w.clone_url
        ∷ codes "."
        ∷ [])
      w.auth_token

abbrev pub clone_of_default : (Text → Text) → Workdir → Arguments
clone_of_default encode w =
    git_network_args encode
      (codes "clone"
        ∷ codes "--depth=1"
        ∷ codes "--filter=blob:none"
        ∷ w.clone_url
        ∷ codes "."
        ∷ [])
      w.auth_token

abbrev pub then_run : (Text → Text) → Workdir → List Arguments
then_run encode w =
    (codes "git" ∷ codes "config" ∷ codes "user.name" ∷ codes "Claude" ∷ [])
    ∷ (codes "git" ∷ codes "config" ∷ codes "user.email" ∷ codes "noreply@anthropic.com" ∷ [])
    ∷ git_network_args encode (codes "fetch" ∷ codes "--depth=1" ∷ codes "origin" ∷ w.head_ref ∷ [])
        w.auth_token
    ∷ (codes "git" ∷ codes "reset" ∷ codes "--hard" ∷ codes "FETCH_HEAD" ∷ [])
    ∷ (codes "git" ∷ codes "checkout" ∷ codes "-B" ∷ w.head_ref ∷ codes "FETCH_HEAD" ∷ [])
    ∷ elim w.clean_origin_url [
      | none ↦ []
      | some url ↦
          if nonempty url
          then (codes "git" ∷ codes "remote" ∷ codes "set-url" ∷ codes "origin" ∷ url ∷ []) ∷ []
          else []
    ]

the_setup : (encode : Text → Text) (w : Workdir) → setup encode w ≡ then_run encode w
unfolding setup
the_setup encode w = elim (Option-cases w.clean_origin_url) [
  | inl unset ↦ rw (setup, unset) refl
  | inr (url, set) ↦ rw (setup, set) refl
]

-- The clone: none where there is a repository, else one, and a second if it fails.
abbrev pub Cloned : (Text → Text) → Workdir → List Arguments → Type 0
Cloned encode w cloned =
    ((w.has_git ≡ true) × (cloned ≡ []))
    ⊎ ((w.has_git ≡ false)
        × ((cloned ≡ clone_of_branch encode w ∷ [])
            ⊎ (cloned ≡ clone_of_branch encode w ∷ clone_of_default encode w ∷ [])))

clone-RanAll :
    {W : Type 0} (shell : Shell W) (encode : Text → Text) (wd : Workdir) (w : W)
    → (cloned : List Arguments) × Cloned encode wd cloned × RanAll cloned (clone shell encode wd w)
unfolding clone clone_again fast_clone plain_clone
clone-RanAll shell encode wd w = elim (Bool-cases wd.has_git) [
  | inl there ↦ ([], inl (there, refl), rw there (inr (refl, refl)))
  | inr absent ↦
      let fast = run_command shell (fast_clone encode wd) w in
      let first = shell (fast_clone encode wd) w in
      elim (Bool-cases (first.0.returncode == 0)) [
        | inl good ↦ (
          fast_clone encode wd ∷ [],
          inr (absent, inl refl),
          rw (absent, good) (inr (refl, refl)),
        )
        | inr bad ↦ (
          fast_clone encode wd ∷ plain_clone encode wd ∷ [],
          inr (absent, inr refl),
          rw (absent, bad)
              (after_commands-RanAll (fast_clone encode wd ∷ []) (plain_clone encode wd ∷ [])
                first.1 (returns tt) (λ _. run_all shell (plain_clone encode wd ∷ []))
                λ _. run_all-RanAll shell (plain_clone encode wd ∷ []) first.1),
        )
      ]
]

-- Unless a command has failed and the activity raises: exactly these commands have run: one clone if
-- there was no repository, or a second one after it; then the bot's name and address, the fetch, the
-- hard reset and the checkout of the branch, and last the address of the origin, without credentials.
pub prepare_workdir_at-commands :
    {W : Type 0} (shell : Shell W) (encode : Text → Text) (wd : Workdir) (w : W)
    → let ran = prepare_workdir_at shell encode wd w in
      ((e : Exception) × (ran.result ≡ raises e))
      ⊎ ((ran.result ≡ returns tt)
          × ((cloned : List Arguments) × Cloned encode wd cloned
              × (ran.commands ≡ cloned ++ then_run encode wd)))
unfolding prepare_workdir_at
prepare_workdir_at-commands shell encode wd w =
    let (cloned, is_clone, first) = clone-RanAll shell encode wd w in
    let ran = clone shell encode wd w in
    let whole =
      after_commands-RanAll ran.commands (setup encode wd) ran.world ran.result
        (λ _. run_all shell (setup encode wd))
        (λ _. run_all-RanAll shell (setup encode wd) ran.world) in
    elim first [
      | inl (e, raised) ↦ inl (e, rw raised)
      | inr (returned, all_ran) ↦ elim whole [
        | inl failed ↦ inl failed
        | inr (done, commands) ↦ inr (
          done,
          (
            cloned,
            is_clone,
            commands
                ∙ ap (λ (as' : List Arguments). as' ++ setup encode wd) all_ran
                ∙ ap (λ (more : List Arguments). cloned ++ more) (the_setup encode wd),
          ),
        )
      ]
    ]
