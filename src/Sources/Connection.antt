-- ===== src/Sources/Connection.antt =====
-- source_service.py: `test_source_connection`, over the remote client.
pub mod Bindings
pub mod Passed
use raj_data_handle.Base.{
  ℕ, suc, ◌+◌, String, Bool, true, false, not, ◌&&◌, ◌||◌, Option, none, some, List, [], ◌∷◌, ◌++◌,
  Result, ok, err, Exception, raise_if, ◌>>=◌, ◌>>◌, bind_result, any_of, integrity_error,
  source_validation_error, is_remote_error, is_key_error, eqb, ◌==◌, if◌then◌else◌,
}
use raj_data_handle.Base.Int.{pos}
use raj_data_handle.Text.{lower_codes, codes, is_space}
use raj_data_handle.Value.{Value, text, int, Fields, end, field, item_at, str_of}
use raj_data_handle.Batch.{Source}
use raj_data_handle.Account.{AuditLog}
use raj_data_handle.Secret.{Cipher, SecretSettings, decrypt_credentials}
use raj_data_handle.Remote.{Channel, login, fetch_channels}
use raj_data_handle.Remote.Session
use raj_data_handle.Remote.Session.{Site, Client, Action}
use raj_data_handle.Sources.{
  SourceStore, Platform, Binding, get_source, is_given, update_source, audited,
}
use raj_data_handle.Sources.Update.{as_undecryptable}

drop_spaces : List ℕ → List ℕ
drop_spaces [] = []
drop_spaces (c ∷ s) = if is_space c then drop_spaces s else c ∷ drop_spaces s

starts_with : List ℕ → List ℕ → Bool
starts_with [] s = true
starts_with (c ∷ p) [] = false
starts_with (c ∷ p) (d ∷ s) = eqb c d && starts_with p s

-- `p in s`
occurs : List ℕ → List ℕ → Bool
unfolding starts_with
occurs p [] = starts_with p []
occurs p (d ∷ s) = starts_with p (d ∷ s) || occurs p s

-- `_platform_key_for_channel`
unfoldable pub platform_key_for_channel : String → Option String
unfolding drop_spaces occurs
platform_key_for_channel label =
    let normalized = drop_spaces (lower_codes label) in
    if occurs (codes "aelopay") normalized
    then some "aelopay"
    else if occurs (codes "elepay") normalized
    then some "elepay"
    else none

-- the platform of a key
find_platform : String → List Platform → Option Platform
find_platform key [] = none
find_platform key (p ∷ platforms) =
    if p.platform_key == key then some p else find_platform key platforms

unfoldable pub platform_of : Option String → List Platform → Option Platform
unfolding find_platform
platform_of none platforms = find_platform "" platforms
platform_of (some key) platforms = find_platform key platforms

-- the row that the unique constraint identifies
unfoldable pub is_bound : (source_id : String) → Channel → Platform → Binding → Bool
is_bound source_id channel platform b =
    b.source_id == source_id
    && b.business_type == "payin"
    && b.remote_channel_code == channel.code
    && eqb b.platform_id platform.id

new_binding : (source_id : String) → (actor : ℕ) → Channel → Platform → Binding
new_binding source_id actor channel platform = record {
  platform_id = platform.id;
  source_id = source_id;
  business_type = "payin";
  remote_channel_code = channel.code;
  remote_channel_label = channel.label;
  active = true;
  created_by = some actor;
}

-- the binding of a channel brought up to date
unfoldable pub rebound : (source_id : String) → Channel → Platform → List Binding → List Binding
unfolding is_bound
rebound source_id channel platform [] = []
rebound source_id channel platform (b ∷ bindings) =
    if is_bound source_id channel platform b
    then record b { remote_channel_label = channel.label; active = true } ∷ bindings
    else b ∷ rebound source_id channel platform bindings

-- The number of channels, the rows that were stored, and those added to the session. A query does not see
-- the added ones, since the session has `autoflush=False`.
pub record Sync : Type 0 where
  pub synced : ℕ
  pub stored : List Binding
  pub added : List Binding

-- one round of the loop
unfoldable pub sync_channel :
    (source_id : String) → (actor : ℕ) → Channel → Option Platform → Sync → Sync
unfolding new_binding
sync_channel source_id actor channel none state = state
sync_channel source_id actor channel (some platform) state =
    if any_of (is_bound source_id channel platform) state.stored
    then record state {
      synced = state.synced + 1;
      stored = rebound source_id channel platform state.stored;
    }
    else record state {
      synced = state.synced + 1;
      added = state.added ++ new_binding source_id actor channel platform ∷ [];
    }

-- `_sync_known_channels`
unfoldable pub sync_known_channels :
    (source_id : String) → (actor : ℕ) → List Platform → List Channel → Sync → Sync
sync_known_channels source_id actor platforms [] state = state
sync_known_channels source_id actor platforms (channel ∷ channels) state =
    sync_known_channels source_id actor platforms channels (
      sync_channel source_id actor channel
        (platform_of (platform_key_for_channel channel.label) platforms) state)

-- the unique constraint on the added rows: no other row can have their keys
unfoldable pub same_key : Binding → Binding → Bool
same_key a b =
    eqb a.platform_id b.platform_id
    && a.source_id == b.source_id
    && a.business_type == b.business_type
    && a.remote_channel_code == b.remote_channel_code

unfoldable pub has_duplicate : List Binding → Bool
unfolding same_key
has_duplicate [] = false
has_duplicate (b ∷ bindings) = any_of (same_key b) bindings || has_duplicate bindings

-- the client that the three credentials open
unfoldable pub open_client : Fields → Result Client
open_client credentials = do
  username ← item_at "username" credentials
  password ← item_at "password" credentials
  totp_secret ← item_at "totp_secret" credentials
  ok (record {
    username = str_of username;
    password = str_of password;
    totp_secret = str_of totp_secret;
    page_size = 100;
    token = none;
    sent = [];
  })

-- what the client does while it is open
unfoldable pub read_channels : Site → Action (List Channel)
read_channels site = Session.◌>>◌ (login site false) (fetch_channels site)

connect : Site → Result Client → Result (List Channel)
connect site (err e) = err e
connect site (ok client) = (read_channels site client).0

-- `except (RemoteChargeError, KeyError)`
unfoldable pub is_failed_test : Exception → Bool
is_failed_test e = is_remote_error e || is_key_error e

-- before the loop
abbrev pub unsynced : SourceStore → Sync
unsynced s = record { synced = 0; stored = s.bindings; added = [] }

-- the outcome of the `try`
sync :
    (source_id : String)
    → (actor : ℕ) → SourceStore
    → Result (List Channel)
    → Result (String × Sync)
sync source_id actor s (ok channels) =
    ok ("passed", sync_known_channels source_id actor s.platforms channels (unsynced s))
sync source_id actor s (err e) = if is_failed_test e then ok ("failed", unsynced s) else err e

abbrev with_credentials : Option String → (String → Result Fields) → Result Fields
with_credentials none decrypt = err source_validation_error
with_credentials (some encrypted) decrypt = decrypt encrypted

unfoldable pub tested : (now : ℕ) → (status request_id : String) → Source → Source
tested now status request_id source = record source {
  last_tested_at = some now;
  last_test_status = some status;
  last_test_request_id = some request_id;
}

test_audit : (actor : ℕ) → (source_id status request_id : String) → (synced : ℕ) → AuditLog
test_audit actor source_id status request_id synced = record {
  actor_user_id = some actor;
  action = "source.connection_test";
  target_type = some "source";
  target_id = some source_id;
  result = status;
  metadata_json =
      field "request_id" (text request_id)
        (field "synced_known_payin_channels" (int (pos synced)) end);
}

module _ (site : Site) (cipher : Cipher) (secrets : SecretSettings) where
  -- `test_source_connection`
  unfoldable pub test_source_connection :
      (source_id : String)
      → (actor : ℕ) → (request_id : String) → (now : ℕ) → SourceStore
      → Result ((Source × String) × SourceStore)
  unfolding connect open_client sync test_audit
  test_source_connection source_id actor request_id now s = do
    source ← get_source source_id s
    raise_if (not (is_given source.base_url) || not (is_given source.encrypted_credentials))
        source_validation_error
    credentials ← with_credentials source.encrypted_credentials λ encrypted.
        as_undecryptable
          (decrypt_credentials cipher secrets encrypted source.source_id source.credential_version)
    (status, state) ← sync source.source_id actor s (connect site (open_client credentials))
    raise_if (has_duplicate state.added) integrity_error
    let row = tested now status request_id source
    ok (
      (row, request_id),
      audited (test_audit actor source_id status request_id state.synced) (record s {
        sources = update_source row s.sources;
        bindings = state.stored ++ state.added;
      }),
    )
