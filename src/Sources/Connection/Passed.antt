-- ===== src/Sources/Connection/Passed.antt =====
-- source_service.py: what a connection test that was passed has seen, and what it has sent.
use raj_data_handle.Base.{
  ℕ, ◌≡◌, Exception, ◌⊎◌, inl, inr, refl, sym, ap, ◌∙◌, String, Bool, true, false, not, ◌||◌,
  Option, none, some, List, Result, ok, err, raise_if, >>=-eq-ok, ok-injective, if◌then◌else◌,
  arith, integrity_error, source_validation_error,
}
use mathlib.Core.Path.{subst}
use raj_data_handle.Value.{Fields}
use raj_data_handle.Batch.{Source}
use raj_data_handle.Secret.{Cipher, SecretSettings, decrypt_credentials}
use raj_data_handle.Remote.{Channel}
use raj_data_handle.Remote.Session.{Site, Client}
use raj_data_handle.Sources.{SourceStore, get_source, is_given, update_source}
use raj_data_handle.Sources.Update.{as_undecryptable}
use raj_data_handle.Sources.Connection.{
  Sync, unsynced, has_duplicate, open_client, read_channels, connect, sync, is_failed_test,
  with_credentials, tested, test_source_connection,
}

connect-ok :
    (site : Site) (r : Result Client) (channels : List Channel)
    → connect site r ≡ ok channels
    → (client : Client) × (r ≡ ok client) × ((read_channels site client).0 ≡ ok channels)
unfolding connect
connect-ok site (err e) channels h = cc
connect-ok site (ok client) channels h = (client, refl, h)

failed-status :
    (b : Bool) (e : Exception) (before : Sync) {status : String} {state : Sync}
    → Path
        (Result (String × Sync))
        (if b then ok ("failed", before) else err e)
        (ok (status, state))
    → status ≡ "failed"
failed-status true e before h = cc
failed-status false e before h = cc

sync-cases :
    (source_id : String) (actor : ℕ) (s : SourceStore) (r : Result (List Channel)) (status : String)
    (state : Sync)
    → sync source_id actor s r ≡ ok (status, state)
    → (status ≡ "failed") ⊎ ((status ≡ "passed") × (channels : List Channel) × (r ≡ ok channels))
unfolding sync
sync-cases source_id actor s (ok channels) status state h = inr (cc, channels, refl)
sync-cases source_id actor s (err e) status state h =
    inl (failed-status (is_failed_test e) e (unsynced s) h)

-- what a connection test that returns leaves: of the source only its result is new
pub record IsTested (source : Source) (s t : SourceStore) (row : Source) : Type 0 where
  pub same : row ≡ record source {
    last_tested_at = row.last_tested_at;
    last_test_status = row.last_test_status;
    last_test_request_id = row.last_test_request_id;
  }
  pub sources : t.sources ≡ update_source row s.sources
  pub batches : t.batches ≡ s.batches
  pub platforms : t.platforms ≡ s.platforms

-- a source that answered: its stored credentials opened a client that could log in and read the channels
pub record IsReached (site : Site) (cipher : Cipher) (secrets : SecretSettings) (source : Source)
    : Type 0 where
  pub encrypted : String
  pub has_encrypted : source.encrypted_credentials ≡ some encrypted
  pub credentials : Fields
  pub decrypted :
      decrypt_credentials cipher secrets encrypted source.source_id source.credential_version
      ≡ ok credentials
  pub client : Client
  pub opened : open_client credentials ≡ ok client
  pub channels : List Channel
  pub answered : (read_channels site client).0 ≡ ok channels

as_undecryptable-ok : {A : Type 0} (r : Result A) {a : A} → as_undecryptable r ≡ ok a → r ≡ ok a
unfolding as_undecryptable
as_undecryptable-ok (ok r) h = h
as_undecryptable-ok (err e) h = ground arith

with_credentials-ok :
    (o : Option String) (decrypt : String → Result Fields) (credentials : Fields)
    → with_credentials o decrypt ≡ ok credentials
    → (encrypted : String) × (o ≡ some encrypted) × (decrypt encrypted ≡ ok credentials)
with_credentials-ok none decrypt credentials h = cc
with_credentials-ok (some encrypted) decrypt credentials h = (encrypted, refl, h)

IsReached-or_failed :
    (site : Site) (cipher : Cipher) (secrets : SecretSettings) (source : Source) (actor : ℕ)
    (s : SourceStore) (credentials : Fields) (status : String) (state : Sync)
    → with_credentials source.encrypted_credentials (λ encrypted.
      as_undecryptable
        (decrypt_credentials cipher secrets encrypted source.source_id source.credential_version))
      ≡ ok credentials
    → sync source.source_id actor s (connect site (open_client credentials)) ≡ ok (status, state)
    → (status ≡ "failed") ⊎ ((status ≡ "passed") × IsReached site cipher secrets source)
IsReached-or_failed site cipher secrets source actor s credentials status state readable outcome =
    elim (sync-cases source.source_id actor s _ status state outcome) [
      | inl failed ↦ inl failed
      | inr (passed, channels, reached) ↦
          let (client, opened, answered) =
            connect-ok site (open_client credentials) channels reached in
          let (encrypted, has_encrypted, decrypted) =
            with_credentials-ok source.encrypted_credentials _ credentials readable in
          inr (
            passed,
            record {
              encrypted = encrypted;
              has_encrypted = has_encrypted;
              credentials = credentials;
              decrypted = as_undecryptable-ok _ decrypted;
              client = client;
              opened = opened;
              channels = channels;
              answered = answered;
            },
          )
    ]

-- A connection test that returns was of a stored source, and the row that it returns and stores is that of
-- the source but for the time, the status and the request of the test; the other sources, the platforms and
-- the batches are as before. The status is `failed`, or it is `passed`, and then the stored credentials
-- could be decrypted, and a client with them has logged in and read the channels.
pub test_source_connection-IsReached :
    (site : Site) (cipher : Cipher) (secrets : SecretSettings) (source_id : String) (actor : ℕ)
    (request_id request : String) (now : ℕ) (s t : SourceStore) (row : Source)
    → test_source_connection site cipher secrets source_id actor request_id now s
      ≡ ok ((row, request), t)
    → (source : Source) × (get_source source_id s ≡ ok source)
      × IsTested source s t row
      × ((row.last_test_status ≡ some "failed")
          ⊎ ((row.last_test_status ≡ some "passed") × IsReached site cipher secrets source))
unfolding test_source_connection tested
test_source_connection-IsReached site cipher secrets source_id actor request_id request now s t row
      h =
    let (source, stored, h₁) = >>=-eq-ok (get_source source_id s) _ h in
    let (_, _, h₂) =
      >>=-eq-ok
        (raise_if (not (is_given source.base_url) || not (is_given source.encrypted_credentials))
          source_validation_error)
        _ h₁ in
    let (credentials, readable, h₃) =
      >>=-eq-ok
        (with_credentials source.encrypted_credentials λ encrypted.
          as_undecryptable (
            decrypt_credentials cipher secrets encrypted source.source_id
              source.credential_version))
        _ h₂ in
    let ((status, state), outcome, h₄) =
      >>=-eq-ok (sync source.source_id actor s (connect site (open_client credentials))) _ h₃ in
    let (_, _, h₅) = >>=-eq-ok (raise_if (has_duplicate state.added) integrity_error) _ h₄ in
    let same = ok-injective h₅ in
    let row_is : tested now status request_id source ≡ row =
      ap (λ (r : (Source × String) × SourceStore). r.0.0) same in
    let stored_is = ap (λ (r : (Source × String) × SourceStore). r.1) same in
    (
      source,
      stored,
      record {
        same =
            subst
              (λ (x : Source). x ≡ record source {
                last_tested_at = x.last_tested_at;
                last_test_status = x.last_test_status;
                last_test_request_id = x.last_test_request_id;
              })
              row_is refl;
        sources =
            ap (λ (u : SourceStore). u.sources) (sym stored_is)
            ∙ ap (λ x. update_source x s.sources) row_is;
        batches = ap (λ (u : SourceStore). u.batches) (sym stored_is);
        platforms = ap (λ (u : SourceStore). u.platforms) (sym stored_is);
      },
      elim (IsReached-or_failed site cipher secrets source actor s credentials status state readable
          outcome) [
            | inl failed ↦
                inl (ap (λ (a : Source). a.last_test_status) (sym row_is) ∙ ap some failed)
            | inr (passed, reached) ↦
                inr (ap (λ (a : Source). a.last_test_status) (sym row_is) ∙ ap some passed, reached)
          ],
    )
