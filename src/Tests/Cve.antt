-- ===== src/Tests/Cve.antt =====
-- The daily check on a feed with one advisory.
use agentic_temporal_wf.Base.{
  ℕ, Option, none, some, [], ◌∷◌, ◌≡◌, refl, text_eq, leb, Outcome, returns, raises, type_error,
  http_error, Ensures, if◌then◌else◌, ◌==◌,
}
use agentic_temporal_wf.Base.Text.{Text, codes}
use agentic_temporal_wf.Base.Json.{Json, nil, cons, null, string, number, array, object, field, end}
use agentic_temporal_wf.Cve.{Scores, CveFinding, packages, daily_cve_check}
use agentic_temporal_wf.Cve.Laws.{Exactly, Justified, daily_cve_check-Justified}

-- Scores that are whole numbers.
abbrev score_of : Option Json → Outcome ℕ
score_of none = returns 0
score_of (some (number n)) = returns n
score_of (some null) = returns 0
score_of (some v) = raises type_error

abbrev whole : Scores
whole = record { Score = ℕ; zero_score = 0; score = score_of; at_least = λ a b. leb b a }

abbrev vulnerability : Json
vulnerability = object (
    field (codes "package")
      (object (
        field (codes "ecosystem") (string (codes "pip"))
          (field (codes "name") (string (codes "claude-agent-sdk")) end)))
      end)

abbrev advisory : ℕ → Json
advisory n = object (
    field (codes "cve_id") (string (codes "CVE-1")) (
      field (codes "cvss") (object (field (codes "score") (number n) end))
        (field (codes "vulnerabilities") (array (cons vulnerability nil)) end)))

-- The feed of npm fails; that of pip has a grave advisory and a light one.
abbrev feed : Text → Text → Outcome Json
feed ecosystem pkg =
    if ecosystem == codes "pip"
    then returns (array (cons (advisory 3) (cons (advisory 9) nil)))
    else raises http_error

abbrev found : CveFinding whole
found = record {
  cve_id = string (codes "CVE-1");
  ghsa_id = string [];
  severity = string [];
  cvss = 9;
  summary = string [];
  ecosystem = codes "pip";
  pkg = codes "claude-agent-sdk";
  url = string [];
}

reported : daily_cve_check whole feed 7 ≡ returns (found ∷ [])
unfolding daily_cve_check text_eq
reported = refl

daily_cve_check-Justified_example :
    Ensures (Exactly (Justified whole feed 7 packages)) (daily_cve_check whole feed 7)
daily_cve_check-Justified_example = daily_cve_check-Justified whole feed 7
