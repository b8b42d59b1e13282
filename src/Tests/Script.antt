-- ===== src/Tests/Script.antt =====
-- The theorem on the webhook script at a concrete pull request.
use agentic_temporal_wf.Base.{
  none, some, [], ◌∷◌, ◌++◌, ◌≡◌, refl, text_eq, ℕ_discrete, returns, ◌>>=◌, if◌then◌else◌, leb,
  ◌&&◌, ◌-◌,
}
use agentic_temporal_wf.Base.Text.{Text, codes, strip, show}
use agentic_temporal_wf.Models.{pr_opened}
use agentic_temporal_wf.Allowlist.{check, from_env}
use agentic_temporal_wf.Gateway.Webhook.{Externals, Settings, start_workflow, webhook}
use agentic_temporal_wf.Gateway.Signature.{is_ascii}
use agentic_temporal_wf.Gateway.Trigger.Laws.{payload_for}
use agentic_temporal_wf.Base.Text.Decimal.{Decimal}
use agentic_temporal_wf.Gateway.Script.{script_request, printed_for, parse_pr_url, load_env}
use agentic_temporal_wf.Gateway.Script.Laws.{IsWire, script_request-webhook}
use agentic_temporal_wf.Tests.Data.{pr}
use agentic_temporal_wf.Tests.Gateway.{pydantic, pydantic-IsPydantic, api_pr, api_pr-Describes}
use agentic_temporal_wf.Tests.Serial.{dumps, loads}
use agentic_temporal_wf.Tests.Serial.Read.{loads-dumps}
use agentic_temporal_wf.Tests.Serial.Letters.{dumps-nonempty}

abbrev externals : Externals
externals = record {
  hmac_hexdigest = λ _ _. codes "0f";
  json_loads = loads;
  pydantic = pydantic;
  repr = λ _. codes "...";
  fetch_commit_message = λ _ _ _. [];
}

externals-IsWire : IsWire externals dumps
unfolding is_ascii
externals-IsWire = record {
  ascii = λ _ _. refl;
  read_back = λ v _. loads-dumps v;
  some_bytes = dumps-nonempty;
}

abbrev settings : Settings
settings = record {
  webhook_secret = codes "s";
  allowed_repos = some (codes "o/r");
  approver_logins = none;
}

listed : check (from_env settings.allowed_repos) (codes "o") (codes "r") ≡ returns tt
unfolding check from_env strip text_eq ℕ_discrete
listed = refl

-- A digit of ASCII.
abbrev digits : Decimal
digits c = if leb 48 c && leb c 57 then some (c - 48) else none

-- The URL of the pull request.
abbrev pr_url : Text
pr_url = codes "https://github.com/o/r/pull/7"

pr_url-parts : parse_pr_url digits pr_url ≡ some (codes "o", codes "r", 7)
unfolding parse_pr_url ℕ_discrete
pr_url-parts = refl

script_request-webhook_example :
    ((script_request externals.hmac_hexdigest dumps (codes "s") (codes "d1") api_pr
        >>= webhook externals settings)
      ≡ returns (record {
        status = 202;
        sent =
            start_workflow
              (codes "pr-autofix-o-r-" ++ show 7)
              pr
              (record { kind = pr_opened; delivery_id = codes "d1"; payload = payload_for pr })
            ∷ [];
      }))
    × (printed_for digits pr_url ≡ some (codes "pr-autofix-o-r-" ++ show 7))
script_request-webhook_example =
    script_request-webhook externals settings dumps (codes "d1") api_pr pr digits pr_url
      pr_url-parts pydantic-IsPydantic externals-IsWire api_pr-Describes listed

parsed :
    parse_pr_url digits (codes "https://github.com/o/r/pull/17/files")
    ≡ some (codes "o", codes "r", 17)
unfolding parse_pr_url ℕ_discrete
parsed = refl

loaded :
    load_env (some (codes "# a\nA = \"x\"\nB='y=z'\n\nA=w")) []
    ≡ (codes "A", codes "x") ∷ (codes "B", codes "y=z") ∷ []
unfolding load_env text_eq ℕ_discrete
loaded = refl
