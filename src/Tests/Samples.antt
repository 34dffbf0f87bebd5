-- ===== src/Tests/Samples.antt =====
-- Reports that the tests share.
use lopper.Prelude.{ℕ, ◌+◌, ◌-◌, ◌*◌, ◌/◌, ltb, leb, Bool, true, false, List, [], ◌∷◌, none}
use lopper.Text.{Str, codes}
use lopper.Float.{Float64}
use lopper.Model.Parts.{SymbolRef, ImportUse}
use lopper.Model.Dependency.{DependencyReport}

abbrev pub named : Str → SymbolRef
named name = record {
  name = name;
  module_name = codes "lodash";
  confidence_score = 0;
  confidence_reason_codes = [];
}

-- Hundredths, as a fixed point number.
abbrev pub exact : Float64
exact = record {
  Carrier = ℕ;
  of_nat = λ n. n * 100;
  add = λ a b. a + b;
  sub = λ a b. a - b;
  mul = λ a b. a * b / 100;
  div = λ a b. a * 100 / b;
  lt = ltb;
  le = leb;
  is_finite = λ a. true;
  round = λ a. a;
  neg = λ a. a;
}

abbrev pub used_import : Str → ImportUse
used_import name = record {
  name = name;
  module_name = codes "lodash";
  locations = [];
  provenance = [];
  confidence_score = 0;
  confidence_reason_codes = [];
}

abbrev pub report_of : List ImportUse → List ImportUse → Bool → DependencyReport exact
report_of used unused incomplete = record {
  language = codes "js";
  name = codes "lodash";
  identity = none;
  used_exports_count = 1;
  total_exports_count = 2;
  used_percent = 50;
  estimated_unused_bytes = 0;
  top_used_symbols = [];
  used_imports = used;
  unused_imports = unused;
  unused_exports = named (codes "get") ∷ [];
  risk_cues = [];
  recommendations = [];
  codemod = none;
  runtime_usage = none;
  reachability_confidence = none;
  removal_candidate = none;
  usage_incomplete = incomplete;
  vulnerabilities = [];
  license = none;
  provenance = none;
  suppressed_unused_imports = [];
}

abbrev pub left_report : DependencyReport exact
left_report = report_of (used_import (codes "map") ∷ []) (used_import (codes "get") ∷ []) false

abbrev pub right_report : DependencyReport exact
right_report = report_of (used_import (codes "get") ∷ []) [] false

abbrev pub partial_report : DependencyReport exact
partial_report = report_of [] (used_import (codes "set") ∷ []) true
