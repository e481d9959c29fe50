-- ===== src/Sources.antt =====
-- packages/domain/services/source_service.py: the addresses and names of sources, and the store that
-- its operations work on. An operation that raises has committed nothing.
pub mod Request
pub mod Update
pub mod Removal
pub mod Connection
mod Tests
use Prim.Native.Char.{Char, code}
use Prim.Native.String
use raj_data_handle.Base.{
  ℕ, zero, suc, ◌+◌, String, Bool, true, false, not, ◌&&◌, ◌||◌, Option, none, some, List, [], ◌∷◌,
  ◌++◌, Result, ok, err, raise_if, bind_result, ◌>>=◌, ◌>>◌, source_validation_error,
  source_conflict_error, source_not_found_error, zone_not_found, ltb, leb, eqb, ◌==◌, is_some,
  if◌then◌else◌,
}
use raj_data_handle.Text.{is_empty, strip, count, codes}
use raj_data_handle.Batch.{Batch, Source, find_source}
use raj_data_handle.Account.{AuditLog}

-- `urllib.parse.SplitResult`
pub record UrlParts : Type 0 where
  pub scheme : String
  pub netloc : String
  pub path : String
  pub query : String
  pub fragment : String
  pub username : Option String
  pub password : Option String
  pub hostname : Option String

-- the libraries: `urllib.parse`, `zoneinfo` and `str.upper`
pub record Library : Type 0 where
  pub urlsplit : String → Result UrlParts
  pub urlunsplit : (scheme netloc path query fragment : String) → String
  -- `ZoneInfo(key)`, by what it raises
  pub zone_info : String → Result (Unit {0})
  pub upper : String → String

-- `Settings`, in what the sources take from it
pub record SourceSettings : Type 0 where
  pub environment : String
  pub default_business_timezone : String
  pub default_currency : String

-- `PaymentPlatform` and `PaymentChannelBinding`
pub record Platform : Type 0 where
  pub id : ℕ
  pub platform_key : String

pub record Binding : Type 0 where
  pub platform_id : ℕ
  pub source_id : String
  pub business_type : String
  pub remote_channel_code : String
  pub remote_channel_label : String
  pub active : Bool
  pub created_by : Option ℕ

pub record SourceStore : Type 0 where
  pub sources : List Source
  pub batches : List Batch
  pub platforms : List Platform
  pub bindings : List Binding
  pub audit : List AuditLog

is_lower : ℕ → Bool
is_lower c = leb b'a' c && leb c b'z'

is_id_character : ℕ → Bool
is_id_character c = is_lower c || leb b'0' c && leb c b'9' || eqb c b'_' || eqb c b'-'

all_id_characters : List ℕ → Bool
all_id_characters [] = true
all_id_characters (c ∷ s) = is_id_character c && all_id_characters s

starts_lower : List ℕ → Bool
starts_lower [] = false
starts_lower (c ∷ s) = is_lower c

-- SOURCE_ID_PATTERN
unfoldable pub is_source_id : String → Bool
unfolding starts_lower all_id_characters is_id_character is_lower
is_source_id s =
    starts_lower (codes s) && all_id_characters (codes s) && leb 2 (count s) && leb (count s) 64

-- `validate_source_id`
unfoldable pub validate_source_id : String → Result String
validate_source_id value = do
  let normalized = strip value
  raise_if (not (is_source_id normalized)) source_validation_error
  ok normalized

-- `except ZoneInfoNotFoundError as exc: raise SourceValidationError`
as_source_error : {A : Type 0} → Result A → Result A
as_source_error (err zone_not_found) = err source_validation_error
as_source_error r = r

-- `bool(s)` where `s` may be `None`
unfoldable pub is_given : Option String → Bool
is_given none = false
is_given (some s) = not (is_empty s)

-- `s.rstrip("/")`
unfoldable pub rstrip_slash : String → String
rstrip_slash String.[] = ""
rstrip_slash (String.◌∷◌ c s) =
    let rest = rstrip_slash s in
    if is_empty rest && eqb (code c) b'/' then "" else String.◌∷◌ c rest

is_local : Option String → Bool
is_local none = false
is_local (some host) = host == "localhost" || host == "127.0.0.1"

module _ (library : Library) (settings : SourceSettings) where
  -- `validate_timezone`
  unfoldable pub validate_timezone : String → Result String
  unfolding as_source_error
  validate_timezone value = do
    let normalized = strip value
    as_source_error (library.zone_info normalized)
    ok normalized

  checked_url : UrlParts → Result String
  unfolding is_given rstrip_slash is_local
  checked_url parts = do
    raise_if
        (is_given parts.username
          || is_given parts.password
          || not (is_empty parts.query)
          || not (is_empty parts.fragment))
        source_validation_error
    let is_local_dev = settings.environment == "development" && is_local parts.hostname
    raise_if (not (parts.scheme == "https") && not (is_local_dev && parts.scheme == "http"))
        source_validation_error
    raise_if (not (is_given parts.hostname)) source_validation_error
    let path = rstrip_slash parts.path
    raise_if (not (path == "" || path == "/")) source_validation_error
    ok (rstrip_slash (library.urlunsplit parts.scheme parts.netloc "" "" ""))

  -- `normalize_base_url`
  unfoldable pub normalize_base_url : Option String → Result (Option String)
  unfolding checked_url
  normalize_base_url none = ok none
  normalize_base_url (some value) = do
    parts ← library.urlsplit (strip value)
    url ← checked_url parts
    ok (some url)

unfoldable pub found_source : Option Source → Result Source
found_source none = err source_not_found_error
found_source (some source) = ok source

-- `get_source`
unfoldable pub get_source : String → SourceStore → Result Source
unfolding found_source
get_source source_id s = found_source (find_source source_id s.sources)

-- the row of a source after an operation that has set its columns
abbrev pub update_source : Source → List Source → List Source
update_source source [] = []
update_source source (row ∷ sources) =
    if row.source_id == source.source_id
    then source ∷ sources
    else row ∷ update_source source sources

-- `write_audit` in the same commit
abbrev pub audited : AuditLog → SourceStore → SourceStore
audited entry s = record s { audit = s.audit ++ entry ∷ [] }
