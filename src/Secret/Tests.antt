-- ===== src/Secret/Tests.antt =====
-- security.py with a cipher that only adds a tag.
use raj_data_handle.Text
use raj_data_handle.Text.{strip}
use raj_data_handle.Base.{
  ◌-◌, ◌≡◌, refl, false, true, none, some, [], ◌∷◌, ◌++◌, length, take, ok, err,
  security_validation_error, arith,
}
use raj_data_handle.Value.{Fields, end, field, text, dict}
use raj_data_handle.Secret.{
  Bytes, Cipher, SecretSettings, credential_key, encrypt_credentials, decrypt_credentials,
}
use raj_data_handle.Secret.RoundTrip.{IsCodec, decrypt-encrypt}

abbrev tag : Bytes
tag = 0 ∷ 0 ∷ 0 ∷ 0 ∷ 0 ∷ 0 ∷ 0 ∷ 0 ∷ 0 ∷ 0 ∷ 0 ∷ 0 ∷ 0 ∷ 0 ∷ 0 ∷ 0 ∷ []

abbrev nonce : Bytes
nonce = 1 ∷ 2 ∷ 3 ∷ 4 ∷ 5 ∷ 6 ∷ 7 ∷ 8 ∷ 9 ∷ 10 ∷ 11 ∷ 12 ∷ []

abbrev credentials : Fields
credentials = field "username" (text "ada") (field "password" (text "pw") end)

-- the plaintext is two bytes for whatever is printed
abbrev cipher : Cipher
cipher = record {
  seal = λ key nonce plaintext aad. plaintext ++ tag;
  unseal = λ key nonce ciphertext aad. some (take (length ciphertext - 16) ciphertext);
  b64encode = λ raw. "encoded";
  b64decode = λ s. some (nonce ++ 7 ∷ 8 ∷ tag);
  sha256 = λ s. 9 ∷ [];
  utf8 = λ s. [];
  dumps = λ fields. 7 ∷ 8 ∷ [];
  loads = λ raw. some (dict "" credentials);
}

abbrev development : SecretSettings
development = record { credential_encryption_key = none; is_production = false; secret_key = "s" }

abbrev production : SecretSettings
production = record { credential_encryption_key = some " "; is_production = true; secret_key = "s" }

no_key_in_production : credential_key cipher production ≡ err security_validation_error
unfolding credential_key strip
no_key_in_production = refl

other_version :
    decrypt_credentials cipher development "v2:encoded" "src" 1 ≡ err security_validation_error
unfolding decrypt_credentials Text.take
other_version = refl

sent : encrypt_credentials cipher development nonce credentials "src" 1 ≡ ok "v1:encoded"
unfolding encrypt_credentials credential_key
sent = refl

development_key : credential_key cipher development ≡ ok (9 ∷ [])
unfolding credential_key
development_key = refl

codec : IsCodec cipher development (9 ∷ []) nonce [] credentials
codec = record {
  decodes = refl;
  unseals = refl;
  tagged = refl;
  printed = ground arith;
  shown = "";
  reads = refl;
}

decrypt-encrypt_example :
    decrypt_credentials cipher development "v1:encoded" "src" 1 ≡ ok credentials
decrypt-encrypt_example =
    decrypt-encrypt cipher development nonce (9 ∷ []) credentials "src" "v1:encoded" 1 sent
      development_key codec refl tt
