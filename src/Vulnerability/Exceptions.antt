-- ===== src/Vulnerability/Exceptions.antt =====
-- internal/report/vulnerability.go: the exceptions that a policy makes for findings.
use lopper.Prelude.{
  ℕ, ◌+◌, Bool, true, false, not, ◌&&◌, ◌||◌, List, [], ◌∷◌, ◌++◌, Option, none, some, leb, any,
  ◌==◌, if◌then◌else◌,
}
use lopper.Text.{Str, codes, str_eq, trim_space, to_lower, has_prefix}
use lopper.Text.Split.{replace_all}
use lopper.Text.Ascending.{has}
use lopper.Float.{Float64}
use lopper.Purl.{Url, canonical_purl}
use lopper.Model.Parts.{Location, ImportUse}
use lopper.Model.Dependency.{
  DependencyReport, DependencyIdentity, VulnerabilityFinding, VulnerabilityExceptionDecision,
}
use lopper.Vulnerability.Ranks.{lowered, normalize_decision_status}
use lopper.Vulnerability.Ecosystems.{
  first_non_blank, package_names_match, dependency_advisory_ecosystem,
}

-- `VulnerabilityException` of internal/report/model/dependency.go.
pub record VulnerabilityException : Type 0 where
  pub vulnerability_id : Str
  pub purl : Str
  pub package_name : Str
  pub repository : Str
  pub path : Str
  pub owner : Str
  pub reason : Str
  pub status : Str
  pub justification : Str
  pub issued : Str
  pub expires : Str
  pub source : Str

-- The functions of packages strings, unicode, path and time that the match of exceptions calls: the
-- parses of a time stamp and of a date, the start of the day after, and the order of instants.
pub record Platform : Type 1 where
  pub Instant : Type 0
  pub is_zero : Instant → Bool
  pub before : Instant → Instant → Bool
  pub parse_rfc3339 : Str → Option Instant
  pub parse_date : Str → Option Instant
  pub next_day : Instant → Instant
  pub equal_fold : Str → Str → Bool
  pub is_letter : ℕ → Bool
  pub is_digit : ℕ → Bool
  pub clean_path : Str → Str

abbrev normalize_exception : VulnerabilityException → VulnerabilityException
normalize_exception exception = record {
  vulnerability_id = trim_space exception.vulnerability_id;
  purl = trim_space exception.purl;
  package_name = trim_space exception.package_name;
  repository = trim_space exception.repository;
  path = trim_space exception.path;
  owner = trim_space exception.owner;
  reason = trim_space exception.reason;
  status = normalize_decision_status exception.status;
  justification = trim_space exception.justification;
  issued = trim_space exception.issued;
  expires = trim_space exception.expires;
  source = trim_space exception.source;
}

-- `normalizeVulnerabilityExceptions`.
unfoldable pub normalize_exceptions : List VulnerabilityException → List VulnerabilityException
normalize_exceptions [] = []
normalize_exceptions (exception ∷ exceptions) =
    let rest = normalize_exceptions exceptions in
    if str_eq (trim_space exception.vulnerability_id) []
    then rest
    else normalize_exception exception ∷ rest

abbrev if_set : Str → ℕ → ℕ
if_set [] points = 0
if_set (c ∷ s) points = points

-- `vulnerabilityExceptionSpecificity`.
unfoldable pub specificity : VulnerabilityException → ℕ
specificity exception =
    if_set exception.purl 100
    + if_set exception.package_name 10
    + if_set exception.repository 4
    + if_set exception.path 2

-- `vulnerabilityExceptionScope`.
unfoldable pub exception_scope : VulnerabilityException → Str
exception_scope exception =
    if not (str_eq exception.purl [])
    then codes "purl:" ++ exception.purl
    else if not (str_eq exception.package_name [])
    then codes "package:" ++ exception.package_name
    else codes "vulnerability:" ++ exception.vulnerability_id

abbrev emit : Str → List Str → List Str
emit [] words = words
emit (c ∷ s) words = (c ∷ s) ∷ words

-- `strings.FieldsFunc`, after the part of a word.
unfoldable pub fields_from : (ℕ → Bool) → Str → Str → List Str
fields_from separates word [] = emit word []
fields_from separates word (c ∷ s) =
    let after = fields_from separates [] s in
    let longer = fields_from separates (word ++ c ∷ []) s in
    if separates c then emit word after else longer

-- One round of the loop of `vulnerabilityExceptionDecision`; `bestScore` is the specificity of
-- `best`, and below 0 where there is none.
unfoldable pub better :
    Option VulnerabilityException → VulnerabilityException → Option VulnerabilityException
better none exception = some exception
better (some best) exception =
    if leb (specificity best) (specificity exception) then some exception else some best

unfoldable pub best_exception :
    (VulnerabilityException → Bool)
    → Option VulnerabilityException
    → List VulnerabilityException
    → Option VulnerabilityException
best_exception matches best [] = best
best_exception matches best (exception ∷ exceptions) =
    best_exception matches (if matches exception then better best exception else best) exceptions

module _ (float : Float64) (url : Url) (platform : Platform) where
  -- `vulnerabilityEvidenceTokens`.
  unfoldable pub evidence_tokens : Str → List Str
  evidence_tokens evidence =
      fields_from (λ c. not (platform.is_letter c) && not (platform.is_digit c) && not (c == b'-'))
        [] (to_lower evidence)

  -- `vulnerabilityIDMatches`.
  unfoldable pub id_matches : Str → VulnerabilityFinding float → Bool
  id_matches id finding =
      not (str_eq (lowered id) [])
      && (str_eq (lowered finding.advisory_id) (lowered id)
          || any (λ evidence. has (lowered id) (evidence_tokens evidence)) finding.evidence)

  -- `normalizeVulnerabilityPathEvidence`.
  unfoldable pub normalize_path : Str → Str
  normalize_path value =
      if str_eq (trim_space value) []
      then []
      else platform.clean_path (replace_all 92 (codes "/") (trim_space value))

  -- `dependencyHasPathEvidence`.
  unfoldable pub has_path_evidence : DependencyReport float → Str → Bool
  has_path_evidence dep path =
      let needle = normalize_path path in
      let covers = λ (location : Location).
        str_eq (normalize_path location.file) needle
        || has_prefix (normalize_path location.file) (needle ++ codes "/") in
      let reaches = any (λ (item : ImportUse). any covers item.locations) in
      str_eq needle []
      || reaches dep.used_imports
      || reaches dep.unused_imports
      || reaches dep.suppressed_unused_imports

  -- The test of an exception's package URL in `vulnerabilityExceptionMatchesFinding`.
  unfoldable pub purl_matches : Str → Option DependencyIdentity → Bool
  purl_matches purl none = str_eq purl []
  purl_matches purl (some identity) =
      str_eq purl []
      || platform.equal_fold (canonical_purl url purl) (canonical_purl url identity.purl)

  -- `vulnerabilityExceptionMatchesFinding`.
  unfoldable pub exception_matches :
      VulnerabilityException → VulnerabilityFinding float → DependencyReport float → Str → Bool
  exception_matches exception finding dep repo_path =
      id_matches exception.vulnerability_id finding
      && purl_matches exception.purl dep.identity
      && (str_eq exception.package_name []
          || package_names_match exception.package_name
              (first_non_blank (finding.package_name ∷ dep.name ∷ []))
              (dependency_advisory_ecosystem float dep))
      && (str_eq exception.repository []
          || not (str_eq (trim_space repo_path) [])
            && platform.equal_fold (trim_space exception.repository) (trim_space repo_path))
      && (str_eq exception.path [] || has_path_evidence dep exception.path)

  -- `vulnerabilityExceptionExpired`.
  unfoldable pub exception_expired : Str → platform.Instant → Bool
  exception_expired expires now =
      let text = trim_space expires in
      if str_eq text [] then false else elim (platform.parse_rfc3339 text) [
        | some end ↦ not (platform.is_zero now) && platform.before end now
        | none ↦ elim (platform.parse_date text) [
          | some day ↦
              not (platform.is_zero now) && not (platform.before now (platform.next_day day))
          | none ↦ true
        ]
      ]

  -- What `vulnerabilityExceptionDecision` returns for the best exception.
  unfoldable pub decide : VulnerabilityException → platform.Instant → VulnerabilityExceptionDecision
  decide best now = record {
    status = best.status;
    justification = best.justification;
    owner = best.owner;
    reason = best.reason;
    scope = exception_scope best;
    expires = best.expires;
    source = best.source;
    expired = exception_expired best.expires now;
  }

  -- `vulnerabilityExceptionDecision`.
  unfoldable pub exception_decision :
      VulnerabilityFinding float
      → DependencyReport float
      → Str
      → List VulnerabilityException
      → platform.Instant
      → Option VulnerabilityExceptionDecision
  exception_decision finding dep repo_path exceptions now =
      elim (best_exception (λ exception. exception_matches exception finding dep repo_path) none
        exceptions) [ none ↦ none | some best ↦ some (decide best now) ]
