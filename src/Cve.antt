-- ===== src/Cve.antt =====
-- src/activities/cve_check.py: the advisories on the packages of the agent. A score is a value of a
-- type that is given, with `float` and the order of floats. A finding stands for its `__dict__`.
pub mod Laws
use agentic_temporal_wf.Base.{
  Bool, true, false, Option, none, some, List, [], ◌∷◌, ◌++◌, if◌then◌else◌, get_or, Outcome,
  returns, raises, ◌>>=◌,
}
use agentic_temporal_wf.Base.Text.{Text, codes}
use agentic_temporal_wf.Base.Json.{
  Json, Items, nil, cons, null, string, object, get, truthy, or_empty,
}
use agentic_temporal_wf.Iteration.Activity.{is_text, items_of}

-- `score` is `float(v or 0.0)` of the value of a key, and `at_least a b` is `a >= b`.
pub record Scores : Type 1 where
  pub Score : Type 0
  pub zero_score : Score
  pub score : Option Json → Outcome Score
  pub at_least : Score → Score → Bool

abbrev pub packages : List (Text × Text)
packages =
    (codes "npm", codes "@anthropic-ai/claude-code") ∷ (codes "pip", codes "claude-agent-sdk") ∷ []

-- `v or ""`
abbrev pub or_text : Option Json → Json
or_text none = string []
or_text (some v) = if truthy v then v else string []

abbrev is_dict : Json → Bool
is_dict (object _) = true
is_dict _ = false

-- The package that an entry of the vulnerabilities names.
unfoldable pub affects_one : Text → Text → Json → Outcome Bool
unfolding get or_empty
affects_one ecosystem pkg v = do
  node ← get v (codes "package")
  name ← get (or_empty node) (codes "name")
  if is_text pkg name
      then (do
        node' ← get v (codes "package")
        found ← get (or_empty node') (codes "ecosystem")
        returns (is_text ecosystem found))
      else returns false

-- `any(...)` stops at the first entry that fits.
unfoldable pub affects : Text → Text → Items → Outcome Bool
unfolding affects_one
affects ecosystem pkg nil = returns false
affects ecosystem pkg (cons v vs) = affects_one ecosystem pkg v >>= λ b. elim b [
  | true ↦ returns true
  | false ↦ affects ecosystem pkg vs
]

-- `adv.get("vulnerabilities") or []`, and its entries.
unfoldable pub is_affected : Text → Text → Json → Outcome Bool
unfolding get items_of affects
is_affected ecosystem pkg adv = do
  vulns ← get adv (codes "vulnerabilities")
  entries ← items_of (get_or vulns null)
  affects ecosystem pkg entries

-- `fetch_advisories`: `feed` is the JSON of the feed for an ecosystem and a package, or what the
-- request, its status or its parsing raises.
unfoldable pub fetch_advisories : (Text → Text → Outcome Json) → Text → Text → Outcome Items
unfolding items_of
fetch_advisories feed ecosystem pkg = do v ← feed ecosystem pkg; items_of v

module _ (s : Scores) where
  open s use {Score, zero_score, score, at_least}

  pub record CveFinding : Type 0 where
    pub cve_id : Json
    pub ghsa_id : Json
    pub severity : Json
    pub cvss : Score
    pub summary : Json
    pub ecosystem : Text
    pub pkg : Text
    pub url : Json

  unfoldable pub cvss_of : Json → Outcome Score
  unfolding get
  cvss_of node = do v ← get node (codes "score"); score v

  unfoldable pub parse_advisory : Json → Text → Text → Outcome CveFinding
  unfolding get or_empty cvss_of truthy
  parse_advisory adv ecosystem pkg = do
    node ← get adv (codes "cvss")
    cvss ← if is_dict (or_empty node) then cvss_of (or_empty node) else returns zero_score
    cve_id ← get adv (codes "cve_id")
    ghsa_id ← get adv (codes "ghsa_id")
    severity ← get adv (codes "severity")
    summary ← get adv (codes "summary")
    url ← get adv (codes "html_url")
    returns (record {
      cve_id = get_or cve_id null;
      ghsa_id = or_text ghsa_id;
      severity = or_text severity;
      cvss = cvss;
      summary = or_text summary;
      ecosystem = ecosystem;
      pkg = pkg;
      url = or_text url;
    })

  -- What the loop appends for an advisory.
  unfoldable pub finding_of : Json → Text → Text → Score → Outcome (List CveFinding)
  unfolding is_affected parse_advisory
  finding_of adv ecosystem pkg threshold = do
    affected ← is_affected ecosystem pkg adv
    if affected
        then (do
          f ← parse_advisory adv ecosystem pkg
          returns (if at_least f.cvss threshold then f ∷ [] else []))
        else returns []

  unfoldable pub filter_findings : Items → Text → Text → Score → Outcome (List CveFinding)
  unfolding finding_of
  filter_findings nil ecosystem pkg threshold = returns []
  filter_findings (cons adv advs) ecosystem pkg threshold = do
    here ← finding_of adv ecosystem pkg threshold
    rest ← filter_findings advs ecosystem pkg threshold
    returns (here ++ rest)

  -- The loop over the packages: a feed that fails is passed over, and what the filter raises is not
  -- caught.
  unfoldable pub check_packages :
      (Text → Text → Outcome Json) → Score → List (Text × Text) → Outcome (List CveFinding)
  unfolding fetch_advisories filter_findings
  check_packages feed threshold [] = returns []
  check_packages feed threshold ((ecosystem, pkg) ∷ more) =
      elim (fetch_advisories feed ecosystem pkg) [
        | raises _ ↦ check_packages feed threshold more
        | returns advs ↦ do
          found ← filter_findings advs ecosystem pkg threshold
          rest ← check_packages feed threshold more
          returns (found ++ rest)
      ]

  -- `daily_cve_check`
  unfoldable pub daily_cve_check : (Text → Text → Outcome Json) → Score → Outcome (List CveFinding)
  unfolding check_packages
  daily_cve_check feed threshold = check_packages feed threshold packages
