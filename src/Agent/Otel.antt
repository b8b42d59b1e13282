-- ===== src/Agent/Otel.antt =====
-- src/observability/otel.py: which backend receives the spans. The libraries that build a provider
-- are a parameter.
pub mod Laws
use agentic_temporal_wf.Base.{
  ◌&&◌, Option, none, some, List, [], ◌∷◌, if◌then◌else◌, get_or, text_eq,
}
use agentic_temporal_wf.Base.Dict.{Dict, lookup}
use agentic_temporal_wf.Base.Text.{Text, codes, nonempty}

pub data Backend : Type 0 where
  phoenix : Text → Backend
  arize : Text → Text → Backend

-- `_PROVIDER`, by what it was built of, and the providers that were installed, the last first.
pub record Telemetry : Type 0 where
  pub provider : Option (Text × Backend)
  pub installed : List (Text × Backend)

-- The backend that the environment asks for; an empty value counts as none.
unfoldable pub chosen_backend : Dict Text Text → Option Backend
unfolding lookup
chosen_backend environ =
    let endpoint = get_or (lookup (codes "PHOENIX_COLLECTOR_ENDPOINT") environ) [] in
    let space_id = get_or (lookup (codes "ARIZE_SPACE_ID") environ) [] in
    let api_key = get_or (lookup (codes "ARIZE_API_KEY") environ) [] in
    if nonempty endpoint
    then some (phoenix endpoint)
    else if nonempty space_id && nonempty api_key
    then some (arize space_id api_key)
    else none

-- `setup_otel`, where the libraries build and install what they are asked for.
unfoldable pub setup_otel : Dict Text Text → Text → Telemetry → Option (Text × Backend) × Telemetry
unfolding chosen_backend
setup_otel environ project_name t = elim t.provider [
  | some p ↦ (some p, t)
  | none ↦ elim (chosen_backend environ) [
    | none ↦ (none, t)
    | some backend ↦ (
      some (project_name, backend),
      record {
        provider = some (project_name, backend);
        installed = (project_name, backend) ∷ t.installed;
      },
    )
  ]
]
