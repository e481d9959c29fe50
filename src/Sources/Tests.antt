-- ===== src/Sources/Tests.antt =====
-- source_service.py at a store with one source, and a site that answers every request alike.
use raj_data_handle.Remote.Session
use raj_data_handle.Text
use raj_data_handle.Base.Int.{pos}
use raj_data_handle.Text.{codes, count, strip, lower_codes, is_space, lstrip, rstrip}
use raj_data_handle.Base.{
  ℕ, ◌≡◌, ◌⊎◌, refl, String, true, false, Option, none, some, [], ◌∷◌, ok, err, inl, any_of,
  if◌then◌else◌, ◌==◌, ◌+◌, type_error, source_validation_error, source_conflict_error,
  zone_not_found,
}
use raj_data_handle.Value.{
  Fields, end, field, text, dict, list, item, nil, item_at, get, str_of, str_or_empty, stripped,
  truthy, int, put,
}
use raj_data_handle.Batch.{Source}
use raj_data_handle.Secret.{
  Cipher, SecretSettings, decrypt_credentials, credential_key, stringified,
}
use raj_data_handle.Remote.{Channel, login, extract_token, fetch_channels, get_json, response_data}
use raj_data_handle.Remote.Session.{
  Site, Request, post_login, get_path, Response, response, answered, send,
}
use raj_data_handle.Sources.{
  Library, UrlParts, SourceSettings, SourceStore, Platform, is_source_id, validate_source_id,
  validate_timezone, normalize_base_url, is_given, get_source, found_source,
}
use raj_data_handle.Sources.Request.{CredentialsWrite, provided, upsert, patch, provided}
use raj_data_handle.Sources.Update.{
  UpdateInputs, upsert_source, create_source, started, as_undecryptable,
}
use raj_data_handle.Sources.Update.Enabled.{IsFit, upsert-IsFit}
use raj_data_handle.Sources.Update.Version.{upsert-version}
use raj_data_handle.Sources.Removal.{delete_source}
use raj_data_handle.Sources.Removal.Gone.{IsDeleted, delete_source-IsDeleted}
use raj_data_handle.Sources.Connection.{
  platform_key_for_channel, platform_of, sync_known_channels, unsynced, has_duplicate,
  test_source_connection, read_channels, rebound, is_bound, is_failed_test, open_client,
  sync_channel, tested,
}
use raj_data_handle.Sources.Connection.Bindings.{is_active_binding, rows, sync-bound}
use raj_data_handle.Sources.Connection.Passed.{
  IsReached, IsTested, test_source_connection-IsReached,
}

abbrev parts : UrlParts
parts = record {
  scheme = "https";
  netloc = "a.b";
  path = "/";
  query = "";
  fragment = "";
  username = none;
  password = none;
  hostname = some "a.b";
}

abbrev library : Library
library = record {
  urlsplit = λ s. ok (if s == "https://a.b/" then parts else record parts { scheme = "http" });
  urlunsplit = λ scheme netloc path query fragment. "https://a.b";
  zone_info = λ key. if key == "UTC" then ok tt else err zone_not_found;
  upper = λ s. s;
}

abbrev settings : SourceSettings
settings = record {
  environment = "production";
  default_business_timezone = "UTC";
  default_currency = "INR";
}

abbrev credentials : Fields
credentials =
    field "username" (text "u") (field "password" (text "p") (field "totp_secret" (text "t") end))

abbrev cipher : Cipher
cipher = record {
  seal = λ key nonce plaintext aad. plaintext;
  unseal = λ key nonce ciphertext aad. some ciphertext;
  b64encode = λ raw. "x";
  b64decode = λ s. some (
      0 ∷ 0 ∷ 0 ∷ 0 ∷ 0 ∷ 0 ∷ 0 ∷ 0 ∷ 0 ∷ 0 ∷ 0 ∷ 0 ∷ 0 ∷ 0 ∷ 0 ∷ 0 ∷ 0 ∷ 0 ∷ 0 ∷ 0 ∷ 0 ∷ 0 ∷ 0 ∷ 0
      ∷ 0 ∷ 0 ∷ 0 ∷ 0 ∷ 0 ∷ []);
  sha256 = λ s. [];
  utf8 = λ s. [];
  dumps = λ fields. [];
  loads = λ raw. some (dict "" credentials);
}

abbrev secrets : SecretSettings
secrets = record { credential_encryption_key = none; is_production = false; secret_key = "s" }

abbrev inputs : UpdateInputs
inputs = record { shown = λ items. "[]"; nonce = []; now = 5 }

abbrev source : Source
source = record {
  source_id = "ab";
  display_name = "AB";
  enabled = false;
  base_url = some "https://a.b";
  encrypted_credentials = some "v1:x";
  credential_version = 1;
  config_version = 3;
  business_timezone = "UTC";
  currency = "INR";
  credential_updated_at = some 1;
  last_tested_at = some 2;
  last_test_status = some "passed";
  last_test_request_id = some "r";
  created_by = some 1;
  updated_by = some 1;
}

abbrev store : SourceStore
store = record {
  sources = source ∷ [];
  batches = [];
  platforms = (record { id = 1; platform_key = "aelopay" }) ∷ [];
  bindings = [];
  audit = [];
}

identifiers :
    (is_source_id "a-1" ≡ true)
    × (is_source_id "1a" ≡ false)
    × (is_source_id "a" ≡ false)
    × (is_source_id "aB" ≡ false)
unfolding is_source_id codes count
identifiers = (refl, refl, refl, refl)

stripped_id : validate_source_id " ab " ≡ ok "ab"
unfolding validate_source_id is_source_id codes strip count
stripped_id = refl

https_kept : normalize_base_url library settings (some "https://a.b/") ≡ ok (some "https://a.b")
unfolding normalize_base_url strip
https_kept = refl

http_refused : normalize_base_url library settings (some "http://a.b") ≡ err source_validation_error
unfolding normalize_base_url strip
http_refused = refl

unknown_zone : validate_timezone library settings "Nowhere" ≡ err source_validation_error
unfolding validate_timezone strip
unknown_zone = refl

platform_names :
    (platform_key_for_channel "Aelo Pay 1" ≡ some "aelopay")
    × (platform_key_for_channel "ELEPAY" ≡ some "elepay")
    × (platform_key_for_channel "x" ≡ none)
unfolding platform_key_for_channel lower_codes is_space codes
platform_names = (refl, refl, refl)

abbrev enabling : Option String → Source × SourceStore
unfolding upsert_source
enabling name =
    elim (upsert_source library settings cipher secrets "ab"
      (patch name none (some true) none none none) 7 inputs store) [
        | err e ↦ (source, store)
        | ok r ↦ r
      ]

enabled_ok :
    upsert_source library settings cipher secrets "ab"
      (patch none none (some true) none none none)
      7
      inputs
      store
    ≡ ok (
      record source { enabled = true; config_version = 4; updated_by = some 7 },
      (enabling none).1,
    )
unfolding upsert_source validate_source_id is_source_id codes strip count started provided is_given
enabled_ok = refl

unknown_patch :
    upsert_source library settings cipher secrets "cd"
      (patch none none none none none none)
      7
      inputs
      store
    ≡ err source_validation_error
unfolding upsert_source validate_source_id is_source_id codes strip count started
unknown_patch = refl

taken_id :
    create_source library settings cipher secrets false "ab"
      (upsert "AB" none false "UTC" "INR" none)
      7
      inputs
      store
    ≡ err source_conflict_error
unfolding create_source validate_source_id is_source_id codes strip count
taken_id = refl

enabled_draft :
    create_source library settings cipher secrets false "cd"
      (upsert "CD" none true "UTC" "INR" none)
      7
      inputs
      store
    ≡ err source_validation_error
unfolding create_source validate_source_id is_source_id codes strip count
enabled_draft = refl

upsert-IsFit_example :
    (old : Source) × IsFit library settings cipher secrets "ab"
      (patch none none (some true) none none none)
      7
      inputs
      store
      (enabling none).1
      (record source { enabled = true; config_version = 4; updated_by = some 7 })
      old
upsert-IsFit_example =
    upsert-IsFit library settings cipher secrets "ab" (patch none none (some true) none none none) 7
      inputs store (enabling none).1
      (record source { enabled = true; config_version = 4; updated_by = some 7 }) enabled_ok refl

upsert-version_example :
    (◌≡◌ {A = ℕ} 4 (source.config_version + 1))
    ⊎ (record source { enabled = true; config_version = 4; updated_by = some 7 }
        ≡ record source { updated_by = some 7 })
upsert-version_example =
    upsert-version library settings cipher secrets "ab" (patch none none (some true) none none none)
      7 inputs store (enabling none).1
      (record source { enabled = true; config_version = 4; updated_by = some 7 }) source enabled_ok
      refl

abbrev with_secrets : CredentialsWrite
with_secrets = record { username = some "u"; password = some "p"; totp_secret = some "t" }

-- a complete first configuration
credentials_refused :
    upsert_source library settings cipher secrets "cd"
      (upsert "CD" none false "UTC" "INR" (some with_secrets))
      7
      inputs
      store
    ≡ err type_error
unfolding upsert_source validate_source_id is_source_id codes strip count started validate_timezone
    normalize_base_url provided put
credentials_refused = refl

abbrev draft_row : Source
draft_row = record source {
  source_id = "cd";
  display_name = "CD";
  base_url = none;
  encrypted_credentials = none;
  credential_version = 0;
  config_version = 1;
  credential_updated_at = none;
  last_tested_at = none;
  last_test_status = none;
  last_test_request_id = none;
  created_by = some 7;
  updated_by = some 7;
}

abbrev draft_store : SourceStore
unfolding upsert_source
draft_store =
    elim (upsert_source library settings cipher secrets "cd"
      (upsert "CD" none false "UTC" "INR" none) 7 inputs store) [ err e ↦ store | ok r ↦ r.1 ]

draft_made :
    upsert_source library settings cipher secrets "cd"
      (upsert "CD" none false "UTC" "INR" none)
      7
      inputs
      store
    ≡ ok (draft_row, draft_store)
unfolding upsert_source validate_source_id is_source_id codes strip count started validate_timezone
    normalize_base_url provided
draft_made = refl

abbrev after_delete : SourceStore
unfolding delete_source
after_delete = elim (delete_source false "ab" 7 store) [ err e ↦ store | ok t ↦ t ]

deleted : delete_source false "ab" 7 store ≡ ok after_delete
unfolding delete_source get_source
deleted = refl

delete_source-IsDeleted_example : IsDeleted "ab" store after_delete
delete_source-IsDeleted_example = delete_source-IsDeleted false "ab" 7 store after_delete deleted

abbrev channel : Channel
channel = record { code = "8001"; label = "Aelo Pay" }

abbrev platform : Platform
platform = record { id = 1; platform_key = "aelopay" }

known_platform : platform_of (platform_key_for_channel "Aelo Pay") store.platforms ≡ some platform
unfolding platform_of platform_key_for_channel lower_codes is_space codes
known_platform = refl

sync-bound_example :
    any_of
      (is_active_binding "ab" channel platform)
      (rows (sync_known_channels "ab" 7 store.platforms (channel ∷ []) (unsynced store)))
    ≡ true
sync-bound_example =
    sync-bound "ab" 7 store.platforms (channel ∷ []) (unsynced store) channel platform (inl refl)
      known_platform

-- a token for a login, and one channel
abbrev answer : Request → Response
answer (post_login _ _ _) = response 200 (some (dict "" (field "token" (text "tk") end)))
answer (get_path _ _ _) = response 200 (
    some (
      dict "" (
        field "data"
          (list "" (
            item (dict "" (field "value" (text "8001") (field "label" (text "Aelo Pay") end))) nil))
          end)))

abbrev site : Site
site = record {
  respond = λ sent request. answered (answer request);
  generate_totp = λ sent secret. some "123456";
  token_keys = "token" ∷ [];
}

abbrev tested_row : Source
tested_row = record source {
  last_tested_at = some 9;
  last_test_status = some "passed";
  last_test_request_id = some "r2";
}

abbrev tested_store : SourceStore
tested_store = record store {
  sources = tested_row ∷ [];
  bindings =
      (record {
        platform_id = 1;
        source_id = "ab";
        business_type = "payin";
        remote_channel_code = "8001";
        remote_channel_label = "Aelo Pay";
        active = true;
        created_by = some 7;
      })
      ∷ [];
  audit =
      (record {
        actor_user_id = some 7;
        action = "source.connection_test";
        target_type = some "source";
        target_id = some "ab";
        result = "passed";
        metadata_json =
            field "request_id" (text "r2") (field "synced_known_payin_channels" (int (pos 1)) end);
      })
      ∷ [];
}

test_ok :
    test_source_connection site cipher secrets "ab" 7 "r2" 9 store
    ≡ ok ((tested_row, "r2"), tested_store)
unfolding test_source_connection get_source is_given as_undecryptable decrypt_credentials Text.take
    Text.drop credential_key item_at read_channels Session.◌>>=◌ login send get extract_token strip
    lstrip rstrip fetch_channels get_json response_data stringified rebound is_bound is_failed_test
    open_client platform_key_for_channel platform_of sync_channel sync_known_channels tested
    found_source codes is_space lower_codes str_of str_or_empty stripped truthy has_duplicate
test_ok = refl

test_source_connection-IsReached_example :
    (source : Source) × (get_source "ab" store ≡ ok source)
    × IsTested source store tested_store tested_row
    × ((tested_row.last_test_status ≡ some "failed")
        ⊎ ((tested_row.last_test_status ≡ some "passed") × IsReached site cipher secrets source))
test_source_connection-IsReached_example =
    test_source_connection-IsReached site cipher secrets "ab" 7 "r2" "r2" 9 store tested_store
      tested_row test_ok
