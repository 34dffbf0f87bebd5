-- ===== src/Lib.antt =====
-- Lopper measures how much of its dependencies a code base uses. Language adapters detect and report
-- on dependencies (internal/language); the analysis merges their reports (internal/analysis), reports
-- are enriched with vulnerabilities by comparing versions with advisories, scored and summed up
-- (internal/report), thresholds say what passes (internal/thresholds), and feature flags
-- (internal/featureflags) choose which behaviour a build has.
--
-- Files and code:
--   Pep440      internal/report/pep440/pep440.go. Version: the grammar and `parsePEP440Version`;
--               Compare: `CompareVersions` and its parts; the other modules are proofs.
--   Semver      internal/report/identity_normalization.go: `CompareSemanticVersions`. The module
--               golang.org/x/mod/semver is not in the repository: the record Semver takes its
--               validity test and its comparison, with the documented law that it is an order.
--   Purl        internal/report/identity_normalization.go: canonical names and package URLs; the
--               functions of net/url are the record Url.
--   Osv         internal/report/osv_versions.go. Events: events, ranges, `parseSemanticVersionRange`;
--               Match: `advisoryVersionMatch` and what it calls. A result of 0 beside false, where
--               the code drops the second result, is `or_zero`.
--   FeatureFlags internal/featureflags. Flag: `normalizeFlag` and the validators; Registry:
--               `NewRegistry`, lookups, `NextCode`; Resolve: lock.go and resolver.go; Manifest: what
--               is read off the resolved flags.
--   Float       `float64` as an interface, with the percentages, roundings and the clamp that
--               internal/report/scoring.go and others make of it.
--   Model       the types of internal/report/model. Parts: what the merges hold in lists, with
--               a confidence score as a natural number, since the merges only compare scores;
--               Dependency: the others.
--   Merge       internal/analysis/merge.go and merge_report_families.go. Unique: `mergeUniqueSorted`;
--               Runtime: runtime usage; Imports; Advice: cues, recommendations, codemods; Families:
--               `mergeDependency`; Reports: `mergeReports`, whose family mergers are a loop each; the other
--               modules are proofs.
--   Vulnerability internal/report/vulnerability.go. Ranks: severities and priorities; Scores: the
--               priority score and `mergeVulnerabilityFindings`, as far as findings are at hand;
--               Ecosystems and Advisories: the match of advisories with dependencies; Exceptions:
--               the decision on a finding; Applying: `ApplyVulnerabilityExceptions`. The functions of
--               packages strings, unicode, path and time that they call are the record Platform.
--   Summary     internal/report/summary.go. Vulnerabilities: the builder of their summary; Licenses:
--               `ComputeSummary`; Languages: `ComputeLanguageBreakdown`.
--   Baseline    internal/report/baseline_diff.go. Keys: the keys of dependencies; Versions: the
--               distance of versions, an int64 with its wrap-around; Pairing: the pairs of one key and
--               of all; Bridges: the checked pairing; Runtime and Deltas: what changed; Comparison:
--               `ApplyBaseline`. The verb `%020.6f` of package fmt is a parameter.
--   Language    internal/language. Adapter: adapters and detections; Registry: registration,
--               detection and the choice of adapters. An adapter is a record of its functions, and a
--               detection with its context left out; `filepath.Abs` is a parameter.
--   Thresholds  internal/thresholds/thresholds.go. Values: the types and validators of one value;
--               Apply: `Validate` of values and of overrides, `Defaults` and `Apply`; DenyList: the
--               list of denied licenses.
--   CsvSanitize internal/csvsanitize: the escape of cells that a spreadsheet would compute.
--   Mask        internal/lang: the scans that blank strings and comments. Swift: the loops of
--               internal/lang/swift/source_sanitizer.go; Elixir and Sigils: the three loops of
--               `MaskSource` in internal/lang/elixir/source_mask.go; the other modules are proofs.
--   Text, Regex, Dict, Prelude are the shared base; Tests runs the model at concrete inputs.
--
-- Representation: a string is the list of its code points, which Go compares alike, and a source that
-- is masked the list of its bytes. Lower case is that of Unicode 15 (Text/Lower); upper case folds what
-- folds into ASCII, since the program compares such text with ASCII words only. A Go map is an association list; where the code iterates over a map, the model goes by the order of
-- its keys. `sort.Slice` is insertion by the program's own `less`. A nil slice is the empty list. A
-- nil pointer is `none`; a nil receiver, which the code replaces or refuses, is left out. Errors are
-- values of a type of their component, without their texts, or `none` where the code returns false.
-- Counts are natural numbers, and integers where a negative value matters; their overflow is not
-- modelled. An instant is counted from the zero value of `time.Time`.
--
-- Fuel: the star of a regular expression takes at most as many rounds as the text has code points,
-- and each round of these expressions consumes one; the digits of a number n take at most n rounds.
-- A loop over the bytes of a source has as many rounds as there are bytes, and each moves the index
-- ahead by one at least. All other loops are by recursion on a list.
--
-- Not modelled: reading and writing JSON, files, processes and the network; what the language
-- adapters do inside, but for two source masks; the command line and its renderings; embedded
-- catalogs; the normalization of advisories and the evidence of findings; removal scores; the alignment of a comparison with the rows of a report;
-- the files and packs that thresholds come from.
pub mod Prelude
pub mod Text
pub mod Dict
pub mod Regex
pub mod Pep440
pub mod Semver
pub mod Purl
pub mod Osv
pub mod FeatureFlags
pub mod Float
pub mod CsvSanitize
pub mod Mask
pub mod Model
pub mod Merge
pub mod Vulnerability
pub mod Summary
pub mod Baseline
pub mod Language
pub mod Thresholds
pub mod Tests
