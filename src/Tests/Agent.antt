-- ===== src/Tests/Agent.antt =====
-- The options of the agent in two environments.
use agentic_temporal_wf.Base.{[], ◌∷◌, ◌≡◌, refl, text_eq}
use agentic_temporal_wf.Base.Dict.{lookup}
use agentic_temporal_wf.Base.Text.{codes}
use agentic_temporal_wf.Agent.Options.{Environ, build_options}
use agentic_temporal_wf.Agent.Options.Laws.{build_options-variables}

abbrev plain : Environ
plain = (codes "RUN_CAPABILITY_TOKEN", codes "opaque") ∷ []

-- The same with a token of GitHub beside it.
abbrev richer : Environ
richer = (codes "GITHUB_TOKEN", codes "ghp_x") ∷ plain

build_options-variables_example : build_options richer ≡ build_options plain
unfolding text_eq lookup
build_options-variables_example =
    build_options-variables richer plain (refl, refl, refl, refl, refl)
