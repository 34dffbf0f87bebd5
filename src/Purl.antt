-- ===== src/Purl.antt =====
-- internal/report/identity_normalization.go: ecosystems, package names and package URLs. The functions
-- of net/url are a parameter.
use lopper.Prelude.{
  ℕ, Bool, true, false, not, ◌&&◌, ◌||◌, List, [], ◌∷◌, ◌++◌, Option, none, some, leb, ◌==◌, all,
  any, if◌then◌else◌,
}
use lopper.Text.{Str, codes, str_eq, trim_space, to_lower, has_prefix}
use lopper.Text.Split.{cut_at, cut_last, split, join, replace_all, drop_bytes, trim_first}

-- `url.PathUnescape`, which can fail, and `url.PathEscape`.
pub record Url : Type 0 where
  pub path_unescape : Str → Option Str
  pub path_escape : Str → Str

abbrev pub is_one_of : Str → List Str → Bool
is_one_of value values = any (λ item. str_eq item value) values

-- `CanonicalPackageEcosystem`.
unfoldable pub canonical_package_ecosystem : Str → Str
canonical_package_ecosystem value =
    let normalized = to_lower (trim_space value) in
    if is_one_of normalized (codes "packagist" ∷ codes "composer" ∷ [])
    then codes "composer"
    else if is_one_of normalized (codes "crates.io" ∷ codes "crates" ∷ codes "cargo" ∷ [])
    then codes "cargo"
    else if is_one_of normalized (codes "ruby" ∷ codes "rubygems" ∷ codes "gem" ∷ [])
    then codes "gem"
    else if is_one_of normalized (codes "elixir" ∷ codes "hex" ∷ [])
    then codes "hex"
    else normalized

abbrev pub is_separator : ℕ → Bool
is_separator c = c == b'-' || c == b'_' || c == b'.'

-- `pypiPackageSeparatorRe.ReplaceAllString`: each run of separators becomes one dash. The flag says
-- whether the text before ends with such a run.
unfoldable pub replace_runs : Bool → Str → Str
replace_runs inside [] = []
replace_runs inside (c ∷ s) =
    let run = replace_runs true s in
    let other = replace_runs false s in
    if is_separator c then (if inside then run else b'-' ∷ run) else c ∷ other

-- `CanonicalPackageNameForEcosystem`.
unfoldable pub canonical_package_name : Str → Str → Str
canonical_package_name ecosystem value =
    let normalized = to_lower (trim_space value) in
    if str_eq normalized []
    then []
    else if str_eq (canonical_package_ecosystem ecosystem) (codes "pypi")
    then replace_runs false normalized
    else normalized

abbrev is_letter : ℕ → Bool
is_letter c = leb b'a' c && leb c b'z'

abbrev is_type_rune : ℕ → Bool
is_type_rune c = is_letter c || leb b'0' c && leb c b'9' || c == b'-' || c == b'.'

-- `purlTypeRe.MatchString`.
unfoldable pub is_purl_type : Str → Bool
is_purl_type [] = false
is_purl_type (c ∷ []) = false
is_purl_type (c ∷ d ∷ s) = is_letter c && all is_type_rune (d ∷ s)

abbrev is_empty {ℓ} : {A : Type ℓ} → List A → Bool
is_empty [] = true
is_empty (item ∷ items) = false

-- The test that a text, trimmed, is a package URL.
unfoldable pub is_purl : Str → Bool
is_purl trimmed = not (str_eq trimmed []) && has_prefix (to_lower trimmed) (codes "pkg:")

-- The results of `splitCanonicalPURL` where it succeeds.
pub record PurlParts : Type 0 where
  pub purl_type : Str
  pub path : Str
  pub version : Str
  pub suffix : Str

-- `append` of a composer segment that names a vendor and a package, whose parts are not empty.
unfoldable pub append_composer : List Str → List Str → Option (List Str)
append_composer segments [] = some segments
append_composer segments (part ∷ parts) =
    let rest = append_composer (segments ++ part ∷ []) parts in
    if str_eq part [] then none else rest

-- `appendDecodedPURLPathSegments`.
unfoldable pub append_decoded_segments : List Str → Str → Str → Option (List Str)
append_decoded_segments segments purl_type decoded =
    if not (str_eq purl_type (codes "composer")) || not (any (λ c. c == b'/') decoded)
    then some (segments ++ decoded ∷ [])
    else append_composer segments (split b'/' decoded)

-- The choices of `isValidPURLPath` by the type.
unfoldable pub valid_segments : Str → List Str → Bool
valid_segments purl_type [] = false
valid_segments purl_type (one ∷ []) =
    if str_eq purl_type (codes "npm") then not (has_prefix one (codes "@")) else true
valid_segments purl_type (one ∷ two ∷ []) =
    if str_eq purl_type (codes "npm")
    then has_prefix one (codes "@")
    else not (str_eq purl_type (codes "pypi"))
valid_segments purl_type (one ∷ two ∷ three ∷ rest) =
    not (str_eq purl_type (codes "npm")) && not (str_eq purl_type (codes "pypi"))

module _ (url : Url) where
  -- The loop of `decodedPURLPathSegments`; `decodePURLPathSegment` is `url.path_unescape`.
  unfoldable pub decode_segments : Str → List Str → List Str → Option (List Str)
  decode_segments purl_type segments [] = some segments
  decode_segments purl_type segments (raw ∷ rest) =
      if str_eq raw [] then none else elim (url.path_unescape raw) [
        | none ↦ none
        | some decoded ↦ elim (append_decoded_segments segments purl_type decoded) [
          | none ↦ none
          | some longer ↦ decode_segments purl_type longer rest
        ]
      ]

  -- `decodedPURLPathSegments`.
  unfoldable pub decoded_path_segments : Str → Str → Option (List Str)
  decoded_path_segments purl_type path =
      let trimmed = trim_first b'/' (trim_space path) in
      if str_eq trimmed [] then none else elim (decode_segments purl_type [] (split b'/' trimmed)) [
        | none ↦ none
        | some segments ↦ if is_empty segments then none else some segments
      ]

  -- `isValidPURLPath`.
  unfoldable pub is_valid_path : Str → Str → Bool
  is_valid_path purl_type path = elim (decoded_path_segments purl_type path) [
    | none ↦ false
    | some segments ↦ valid_segments purl_type segments
  ]

  -- `isValidPURLVersion` and `isValidPURLSuffix`.
  unfoldable pub is_valid_escape : Str → Bool
  is_valid_escape text =
      if str_eq text []
      then true
      else elim (url.path_unescape text) [ none ↦ false | some decoded ↦ true ]

  -- `splitPURLPathVersion`.
  unfoldable pub split_path_version : Str → Str → Str × Str
  split_path_version purl_type path_and_version = elim (cut_last b'@' path_and_version) [
    | none ↦ (path_and_version, [])
    | some (before, after) ↦
        if is_empty after || not (is_valid_path purl_type before)
        then (path_and_version, [])
        else (before, after)
  ]

  -- The last test of `splitCanonicalPURL`.
  abbrev accept_parts : PurlParts → Option PurlParts
  accept_parts parts =
      if is_valid_path parts.purl_type parts.path
        && is_valid_escape parts.version
        && is_valid_escape parts.suffix
      then some parts
      else none

  abbrev parts_of : Str → Str → Option PurlParts
  parts_of purl_type rest =
      let cut = cut_at (λ c. c == b'?' || c == b'#') rest in
      let split_path = split_path_version purl_type cut.0 in
      accept_parts (record {
        purl_type = purl_type;
        path = split_path.0;
        version = split_path.1;
        suffix = cut.1;
      })

  -- `splitCanonicalPURL`.
  unfoldable pub split_canonical_purl : Str → Option PurlParts
  split_canonical_purl value =
      let trimmed = trim_space value in
      if not (is_purl trimmed)
      then none
      else let cut = cut_at (λ c. c == b'/') (drop_bytes 4 trimmed) in
        if is_empty cut.0 || is_empty cut.1
        then none
        else let purl_type = canonical_package_ecosystem (trim_space cut.0) in
          if str_eq purl_type [] || not (is_purl_type purl_type)
          then none
          else parts_of purl_type cut.1

  -- `escapePURLSegment` and `escapeNPMScopeSegment`.
  unfoldable pub escape_segment : Str → Str
  escape_segment value = replace_all b'+' (codes "%2B") (url.path_escape (trim_space value))

  unfoldable pub escape_npm_scope : Str → Str
  escape_npm_scope value = replace_all b'@' (codes "%40") (escape_segment value)

  abbrev escape_each : List Str → List Str
  escape_each [] = []
  escape_each (segment ∷ segments) = escape_segment segment ∷ escape_each segments

  abbrev npm_path : Str → List Str → Str
  npm_path path (one ∷ []) = if has_prefix one (codes "@") then path else b'/' ∷ escape_segment one
  npm_path path (one ∷ two ∷ []) =
      if has_prefix one (codes "@")
      then b'/' ∷ escape_npm_scope one ++ b'/' ∷ escape_segment two
      else path
  npm_path path other = path

  abbrev pypi_path : Str → List Str → Str
  pypi_path path (one ∷ []) = b'/' ∷ escape_segment (canonical_package_name (codes "pypi") one)
  pypi_path path other = path

  -- `canonicalizePURLPath`.
  unfoldable pub canonicalize_path : Str → Str → Str
  canonicalize_path purl_type path =
      if str_eq path [] then [] else elim (decoded_path_segments purl_type path) [
        | none ↦ path
        | some segments ↦
            if str_eq purl_type (codes "npm")
            then npm_path path segments
            else if str_eq purl_type (codes "pypi")
            then pypi_path path segments
            else b'/' ∷ join b'/' (escape_each segments)
      ]

  -- `canonicalizePURLVersion`.
  unfoldable pub canonicalize_version : Str → Str
  canonicalize_version version =
      let trimmed = trim_space version in
      if str_eq trimmed [] then [] else elim (url.path_unescape trimmed) [
        | none ↦ b'@' ∷ trimmed
        | some decoded ↦ b'@' ∷ escape_segment decoded
      ]

  -- `CanonicalPURL`.
  unfoldable pub canonical_purl : Str → Str
  canonical_purl value =
      let trimmed = trim_space value in
      if not (is_purl trimmed) then trimmed else elim (split_canonical_purl trimmed) [
        | none ↦ value
        | some parts ↦
            codes "pkg:"
            ++ (parts.purl_type
                ++ (canonicalize_path parts.purl_type parts.path
                    ++ (canonicalize_version parts.version ++ parts.suffix)))
      ]

  -- `VersionlessCanonicalPURL`.
  unfoldable pub versionless_canonical_purl : Str → Str
  versionless_canonical_purl value =
      let trimmed = trim_space value in
      if not (is_purl trimmed)
      then trimmed
      else let purl = canonical_purl value in
        if str_eq purl [] then [] else elim (split_canonical_purl purl) [
          | none ↦ purl
          | some parts ↦
              if str_eq parts.version []
              then purl
              else codes "pkg:" ++ (parts.purl_type ++ (parts.path ++ parts.suffix))
        ]

  -- `PURLVersion`.
  unfoldable pub purl_version : Str → Str
  purl_version value =
      if not (is_purl (trim_space value))
      then []
      else elim (split_canonical_purl (canonical_purl value)) [
        | none ↦ []
        | some parts ↦ trim_space parts.version
      ]
