-- ===== src/Tests/Exceptions.antt =====
-- Exceptions for vulnerabilities.
use lopper.Prelude.{
  ℕ, ◌+◌, ◌≡◌, refl, leb, ltb, ◌&&◌, true, false, List, [], ◌∷◌, none, some, ◌==◌, length,
}
use lopper.Text.{Str, codes, str_eq, trim_space}
use lopper.Purl.{Url}
use lopper.Model.Dependency.{DependencyReport, VulnerabilityFinding}
use lopper.Merge.Reports.{Report}
use lopper.Vulnerability.Exceptions.{
  VulnerabilityException, Platform, normalize_exceptions, exception_matches, exception_expired,
  exception_decision,
}
use lopper.Vulnerability.Applying.{apply_exceptions}
use lopper.Vulnerability.Decisions.{Decided, exception_decision-best}
use lopper.Vulnerability.Suppression.{Excused, apply_exceptions-Excused}
use lopper.Tests.Samples.{exact, left_report}

abbrev plain_url : Url
plain_url = record { path_unescape = λ s. some s; path_escape = λ s. s }

-- Instants are days; the texts are no time stamps, and a date has as many digits as its day.
abbrev days : Platform
days = record {
  Instant = ℕ;
  is_zero = λ day. day == 0;
  before = ltb;
  parse_rfc3339 = λ s. none;
  parse_date = λ s. some (length s);
  next_day = λ day. day + 1;
  equal_fold = str_eq;
  is_letter = λ c. leb b'a' c && leb c b'z';
  is_digit = λ c. leb b'0' c && leb c b'9';
  clean_path = λ s. s;
}

abbrev advised : VulnerabilityFinding exact
advised = record {
  advisory_id = codes "GHSA-1";
  package_name = codes "lodash";
  severity = codes "high";
  version_status = [];
  fixed_version = [];
  source = codes "osv";
  priority = codes "high";
  priority_score = 7500;
  reachable = true;
  decision = none;
  evidence = codes "alias: CVE-7" ∷ [];
}

abbrev advised_report : DependencyReport exact
advised_report = record left_report { vulnerabilities = advised ∷ [] }

abbrev exception_for : Str → Str → Str → VulnerabilityException
exception_for id package_name expires = record {
  vulnerability_id = id;
  purl = [];
  package_name = package_name;
  repository = [];
  path = [];
  owner = codes "team";
  reason = codes "reviewed";
  status = [];
  justification = [];
  issued = [];
  expires = expires;
  source = [];
}

abbrev exceptions : List VulnerabilityException
exceptions =
    exception_for (codes "cve-7") (codes "lodash") (codes "11111")
    ∷ exception_for (codes "ghsa-1") [] []
    ∷ exception_for (codes "other") [] []
    ∷ []

abbrev report : Report exact
report = record {
  generated_at = 3;
  repo_path = codes "/repo";
  dependencies = advised_report ∷ [];
  usage_uncertainty = none;
  warnings = [];
}

-- A date holds to its end.
last_day : exception_expired exact plain_url days (codes "11111") 5 ≡ false
unfolding exception_expired trim_space str_eq
last_day = refl

day_after : exception_expired exact plain_url days (codes "11111") 6 ≡ true
unfolding exception_expired trim_space str_eq
day_after = refl

exception_decision-best_example :
    Decided exact plain_url days
      (λ exception.
        exception_matches exact plain_url days exception advised advised_report (codes "/repo"))
      exceptions
      3
      (exception_decision exact plain_url days advised advised_report (codes "/repo") exceptions 3)
exception_decision-best_example =
    exception_decision-best exact plain_url days advised advised_report (codes "/repo") exceptions 3

apply_exceptions-Excused_example :
    Excused exact plain_url days
      (normalize_exceptions exceptions)
      3
      (codes "/repo")
      (apply_exceptions exact plain_url days report exceptions 3).0.dependencies
apply_exceptions-Excused_example =
    apply_exceptions-Excused exact plain_url days report exceptions 3 ((refl, tt), tt)
