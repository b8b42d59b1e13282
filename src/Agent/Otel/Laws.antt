-- ===== src/Agent/Otel/Laws.antt =====
-- src/observability/otel.py: the second call of `setup_otel`.
use agentic_temporal_wf.Base.{some, ◌≡◌, refl, ◌∙◌, inl, inr, Option-cases}
use agentic_temporal_wf.Base.Dict.{Dict}
use agentic_temporal_wf.Base.Text.{Text}
use agentic_temporal_wf.Agent.Otel.{Backend, Telemetry, chosen_backend, setup_otel}

setup_otel-kept :
    (environ : Dict Text Text) (name : Text) (t : Telemetry) (p : Text × Backend)
    → t.provider ≡ some p
    → setup_otel environ name t ≡ (some p, t)
unfolding setup_otel
setup_otel-kept environ name t p kept =
    rw (setup_otel, kept) (λ i. (some p, record { provider = kept i; installed = t.installed }))

-- The provider that a call gives is the one that it leaves.
setup_otel-provider :
    (environ : Dict Text Text) (name : Text) (t : Telemetry)
    → (setup_otel environ name t).1.provider ≡ (setup_otel environ name t).0
unfolding setup_otel
setup_otel-provider environ name t = elim (Option-cases t.provider) [
  | inr (q, kept) ↦ rw (setup_otel, kept) kept
  | inl missing ↦ elim (Option-cases (chosen_backend environ)) [
    | inl unset ↦ rw (setup_otel, missing, unset) missing
    | inr (backend, chosen) ↦ rw (setup_otel, missing, chosen) refl
  ]
]

-- Once a backend is set up, a later call gives the same provider and installs nothing, for whatever
-- project and in whatever environment it is made.
setup_otel-again :
    (environ other : Dict Text Text) (project_name name : Text) (t : Telemetry) (p : Text × Backend)
    → (setup_otel environ project_name t).0 ≡ some p
    → setup_otel other name (setup_otel environ project_name t).1
      ≡ (some p, (setup_otel environ project_name t).1)
setup_otel-again environ other project_name name t p h =
    setup_otel-kept other name (setup_otel environ project_name t).1 p
      (setup_otel-provider environ project_name t ∙ h)
