-- ===== src/Language/Adapter.antt =====
-- internal/language/adapter.go: adapters and what they detect. An adapter is a value with the methods
-- of the interface; a context only cancels, and is left out.
use lopper.Prelude.{Bool, List, Option}
use lopper.Prelude.Int.{ℤ}
use lopper.Prelude.Result.{Result}
use lopper.Text.{Str}

-- The errors of the registry; `detection_failed` stands for any error of an adapter.
pub data LanguageError : Type 0 where
  nil_adapter empty_id : LanguageError
  already_registered : Str → LanguageError
  unknown_language : Str → LanguageError
  no_match multiple_languages : LanguageError
  detection_failed : Str → LanguageError

abbrev pub Checked : Type 0 → Type 0
Checked A = Result LanguageError A

-- `Detection`.
pub record Detection : Type 0 where
  pub matched : Bool
  pub confidence : ℤ
  pub roots : List Str

-- `Adapter`, which is a `ConfidenceProvider` where the last field is there.
pub record Adapter : Type 0 where
  pub id : Str
  pub aliases : List Str
  pub detect : Str → Checked Bool
  pub detect_with_confidence : Option (Str → Checked Detection)

-- `Candidate`.
pub record Candidate : Type 0 where
  pub adapter : Adapter
  pub detection : Detection
