-- ===== src/Secret.antt =====
-- packages/common/security.py: the encryption of the remote credentials. Bytes are numbers.
pub mod RoundTrip
mod Tests
use raj_data_handle.Base.{
  ℕ, String, Bool, Option, none, some, List, [], ◌∷◌, ◌++◌, length, take, drop, Result, ok, err,
  raise_if, ◌>>=◌, ◌>>◌, security_validation_error, ltb, eqb, not, ◌==◌, if◌then◌else◌,
}
use raj_data_handle.Text
use raj_data_handle.Text.{is_empty, strip, str_ℕ}
use raj_data_handle.Value.{
  Value, null, bool, int, float, text, list, dict, Fields, end, field, str_of,
}
use Prim.Native.String

abbrev pub Bytes : Type 0
Bytes = List ℕ

-- the libraries: AES-GCM, base64, SHA-256, `str.encode` and json
pub record Cipher : Type 0 where
  pub seal : (key nonce plaintext aad : Bytes) → Bytes
  -- `none` is the `InvalidTag`
  pub unseal : (key nonce ciphertext aad : Bytes) → Option Bytes
  pub b64encode : Bytes → String
  -- `urlsafe_b64decode` of the encoded text; `none` is the `ValueError` of either
  pub b64decode : String → Option Bytes
  pub sha256 : String → Bytes
  pub utf8 : String → Bytes
  pub dumps : Fields → Bytes
  -- `json.loads` of the decoded bytes; `none` is the `ValueError` of either
  pub loads : Bytes → Option Value

-- `Settings`, in what the encryption takes from it
pub record SecretSettings : Type 0 where
  pub credential_encryption_key : Option String
  pub is_production : Bool
  pub secret_key : String

abbrev or_blank : Option String → String
or_blank none = ""
or_blank (some s) = strip s

abbrev concat : String → String → String
concat s t = String.◌++◌ s t

-- `{str(key): str(item)}`
unfoldable pub stringified : Fields → Fields
stringified end = end
stringified (field key value rest) = field key (text (str_of value)) (stringified rest)

credentials_of : Option Value → Result Fields
unfolding stringified
credentials_of none = err security_validation_error
credentials_of (some (dict _ fields)) = ok (stringified fields)
credentials_of (some _) = err security_validation_error

module _ (cipher : Cipher) (settings : SecretSettings) where
  configured_key : Option Bytes → Result Bytes
  configured_key none = err security_validation_error
  configured_key (some key) = if eqb (length key) 32 then ok key else err security_validation_error

  -- `_credential_key`
  unfoldable pub credential_key : Result Bytes
  unfolding configured_key
  credential_key =
      let configured = or_blank settings.credential_encryption_key in
      if not (is_empty configured)
      then configured_key (cipher.b64decode configured)
      else if settings.is_production
      then err security_validation_error
      else ok (cipher.sha256 (concat "credential:" settings.secret_key))

  abbrev aad_of : (source_id : String) → (credential_version : ℕ) → Bytes
  aad_of source_id credential_version =
      cipher.utf8 (concat source_id (concat ":" (str_ℕ credential_version)))

  -- `encrypt_credentials` with its nonce
  unfoldable pub encrypt_credentials :
      (nonce : Bytes) → Fields → (source_id : String) → (credential_version : ℕ) → Result String
  encrypt_credentials nonce payload source_id credential_version = do
    key ← credential_key
    let ciphertext =
        cipher.seal key nonce (cipher.dumps payload) (aad_of source_id credential_version)
    ok (String.◌∷◌ "v" (String.◌∷◌ "1" (String.◌∷◌ ":" (cipher.b64encode (nonce ++ ciphertext)))))

  plaintext_value : Option Bytes → Option Value
  plaintext_value none = none
  plaintext_value (some plaintext) = cipher.loads plaintext

  abbrev with_key : Result Bytes → (raw aad : Bytes) → Option Value
  with_key (err _) raw aad = none
  with_key (ok key) raw aad = plaintext_value (cipher.unseal key (take 12 raw) (drop 12 raw) aad)

  -- the `try`, whose exceptions all count as one
  unsealed : Option Bytes → (aad : Bytes) → Option Value
  unfolding plaintext_value
  unsealed none aad = none
  unsealed (some raw) aad = if ltb (length raw) 29 then none else with_key credential_key raw aad

  -- `decrypt_credentials`
  unfoldable pub decrypt_credentials :
      (encrypted source_id : String) → (credential_version : ℕ) → Result Fields
  unfolding unsealed credentials_of
  decrypt_credentials encrypted source_id credential_version = do
    raise_if (not (Text.take 3 encrypted == "v1:")) security_validation_error
    credentials_of
        (unsealed (cipher.b64decode (Text.drop 3 encrypted)) (aad_of source_id credential_version))
