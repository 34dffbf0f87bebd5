-- ===== src/Model/Parts.antt =====
-- internal/report/model/dependency.go: what the merged lists hold. Scores are floats from 0 to 100 in
-- the program, rounded to tenths; the merges only compare them, and a score is a number here.
use lopper.Prelude.{ℕ, List, Bool, Option}
use lopper.Text.{Str}

-- `SymbolRef`.
pub record SymbolRef : Type 0 where
  pub name : Str
  pub module_name : Str
  pub confidence_score : ℕ
  pub confidence_reason_codes : List Str

-- `RiskCue`.
pub record RiskCue : Type 0 where
  pub code : Str
  pub severity : Str
  pub message : Str
  pub confidence_score : ℕ
  pub confidence_reason_codes : List Str

-- `Recommendation`.
pub record Recommendation : Type 0 where
  pub code : Str
  pub priority : Str
  pub message : Str
  pub rationale : Str
  pub confidence_score : ℕ
  pub confidence_reason_codes : List Str

-- `Location`.
pub record Location : Type 0 where
  pub file : Str
  pub line : ℕ
  pub column : ℕ

-- `ImportUse`.
pub record ImportUse : Type 0 where
  pub name : Str
  pub module_name : Str
  pub locations : List Location
  pub provenance : List Str
  pub confidence_score : ℕ
  pub confidence_reason_codes : List Str

-- `SymbolUsage`, and `RuntimeSymbolUsage`, whose symbol is a name here.
pub record SymbolUsage : Type 0 where
  pub name : Str
  pub module_name : Str
  pub count : ℕ

-- `RuntimeModuleUsage`.
pub record RuntimeModuleUsage : Type 0 where
  pub module_name : Str
  pub count : ℕ

-- `RuntimeCorrelation`; `unset` is the empty text, `other` any that is none of the constants.
pub data Correlation : Type 0 where
  static_only runtime_only overlap unset : Correlation
  other : Str → Correlation

-- `RuntimeUsage`.
pub record RuntimeUsage : Type 0 where
  pub load_count : ℕ
  pub correlation : Correlation
  pub runtime_only : Bool
  pub modules : List RuntimeModuleUsage
  pub parent_modules : List RuntimeModuleUsage
  pub entrypoints : List RuntimeModuleUsage
  pub top_symbols : List SymbolUsage

-- `UsageUncertainty`.
pub record UsageUncertainty : Type 0 where
  pub confirmed_import_uses : ℕ
  pub uncertain_import_uses : ℕ
  pub samples : List Location

-- `CodemodSuggestion`.
pub record CodemodSuggestion : Type 0 where
  pub language : Str
  pub dependency : Str
  pub file : Str
  pub target_file : Str
  pub line : ℕ
  pub import_name : Str
  pub from_module : Str
  pub to_module : Str
  pub original : Str
  pub replacement : Str
  pub patch : Str
  pub safety_reason_codes : List Str
  pub delete_line : Bool

-- `CodemodSkip`.
pub record CodemodSkip : Type 0 where
  pub language : Str
  pub dependency : Str
  pub file : Str
  pub target_file : Str
  pub line : ℕ
  pub import_name : Str
  pub module_name : Str
  pub reason_code : Str
  pub message : Str

-- `CodemodApplyResult`.
pub record CodemodApplyResult : Type 0 where
  pub file : Str
  pub status : Str
  pub patch_count : ℕ
  pub message : Str

-- `CodemodApplyReport`.
pub record CodemodApplyReport : Type 0 where
  pub applied_files : ℕ
  pub applied_patches : ℕ
  pub skipped_files : ℕ
  pub skipped_patches : ℕ
  pub failed_files : ℕ
  pub failed_patches : ℕ
  pub backup_path : Str
  pub results : List CodemodApplyResult

-- `CodemodReport`.
pub record CodemodReport : Type 0 where
  pub mode : Str
  pub suggestions : List CodemodSuggestion
  pub skips : List CodemodSkip
  pub apply : Option CodemodApplyReport
