-- ===== src/Sources/Request.antt =====
-- source_service.py: what a request says, and the dictionaries that `upsert_source` makes of it.
use raj_data_handle.Base.{
  String, Bool, true, false, ◌&&◌, ◌||◌, Option, none, some, List, any_of, ◌==◌, if◌then◌else◌,
}
use raj_data_handle.Text.{is_empty, strip}
use raj_data_handle.Value.{text, Items, nil, item, Fields, end, field, put}

-- `SourceCredentialsWrite`
pub record CredentialsWrite : Type 0 where
  pub username : Option String
  pub password : Option String
  pub totp_secret : Option String

-- `SourceUpsertRequest` (a `SourceCreateRequest` is one with an id) and `SourcePatchRequest`, after
-- their own validation
pub data SourceRequest : Type 0 where
  upsert :
      (display_name : String) (base_url : Option String) (enabled : Bool)
      (business_timezone currency : String) (credentials : Option CredentialsWrite)
      → SourceRequest
  patch :
      (display_name base_url : Option String) (enabled : Option Bool)
      (business_timezone currency : Option String) (credentials : Option CredentialsWrite)
      → SourceRequest

-- the attributes of a request
pub record Attributes : Type 0 where
  pub is_upsert : Bool
  pub display_name : Option String
  pub base_url : Option String
  pub enabled : Option Bool
  pub business_timezone : Option String
  pub currency : Option String
  pub credentials : Option CredentialsWrite

abbrev pub attributes : SourceRequest → Attributes
attributes (upsert name url enabled zone currency credentials) = record {
  is_upsert = true;
  display_name = some name;
  base_url = url;
  enabled = some enabled;
  business_timezone = some zone;
  currency = some currency;
  credentials = credentials;
}
attributes (patch name url enabled zone currency credentials) = record {
  is_upsert = false;
  display_name = name;
  base_url = url;
  enabled = enabled;
  business_timezone = zone;
  currency = currency;
  credentials = credentials;
}

given_field : String → Option String → Fields → Fields
given_field name none rest = rest
given_field name (some value) rest =
    if is_empty (strip value) then rest else field name (text (strip value)) rest

-- `provided`
unfoldable pub provided : Option CredentialsWrite → Fields
unfolding given_field
provided none = end
provided (some c) =
    given_field "username" c.username
      (given_field "password" c.password (given_field "totp_secret" c.totp_secret end))

-- `existing.update(provided)`
unfoldable pub update_fields : Fields → Fields → Fields
update_fields existing end = existing
update_fields existing (field key value rest) = update_fields (put key value existing) rest

-- `key in d`
unfoldable pub has_key : String → Fields → Bool
has_key key end = false
has_key key (field k v rest) = k == key || has_key key rest

-- `required.issubset(existing)`
unfoldable pub has_required : Fields → Bool
unfolding has_key
has_required d = has_key "username" d && has_key "password" d && has_key "totp_secret" d

-- `name in changed_fields`
abbrev pub contains : String → List String → Bool
contains name names = any_of (λ n. n == name) names

abbrev listed : List String → String → Items → Items
listed names name rest = if contains name names then item (text name) rest else rest

-- `sorted(set(changed_fields))`
unfoldable pub sorted_fields : List String → Items
sorted_fields names = listed names "base_url" (
    listed names "business_timezone" (
      listed names "credentials"
        (listed names "currency" (listed names "display_name" (listed names "enabled" nil)))))

-- `if provided`
abbrev pub no_fields : Fields → Bool
no_fields end = true
no_fields (field _ _ _) = false

-- `if requested_enabled`
abbrev pub is_true : Option Bool → Bool
is_true (some b) = b
is_true none = false
