-- ===== src/Secret/RoundTrip.antt =====
-- security.py: `decrypt_credentials` after `encrypt_credentials`.
use raj_data_handle.Base.{
  take, drop, take-append, drop-append, ℕ, ◌≡◌, ◌≤◌, ◌+◌, refl, sym, ap, ◌∙◌, String, some, ◌++◌,
  length, length-append, ok, ok-injective, arith, ltb, false,
}
use raj_data_handle.Text
use raj_data_handle.Value.{text, dict, Fields, end, field, str_of}
use raj_data_handle.Secret.{
  Bytes, Cipher, SecretSettings, stringified, credential_key, aad_of, plaintext_value, unsealed,
  credentials_of, encrypt_credentials, decrypt_credentials,
}

-- every value is a text
abbrev pub AllTexts : Fields → Type 0
AllTexts end = Unit
AllTexts (field key (text _) rest) = AllTexts rest
AllTexts (field key _ rest) = ⊥

stringified-AllTexts : (c : Fields) → AllTexts c → stringified c ≡ c
unfolding stringified str_of
stringified-AllTexts end h = refl
stringified-AllTexts (field key (text s) rest) h =
    ap (field key (text s)) (stringified-AllTexts rest h)
stringified-AllTexts (field key _ rest) h = absurd h

module _ (cipher : Cipher) (settings : SecretSettings) where
  -- What is documented of the libraries, at one message: decoding what was encoded, decrypting what was
  -- encrypted under the same key, nonce and data, the tag of 16 bytes, and reading what was printed.
  pub record IsCodec (key nonce aad : Bytes) (payload : Fields) : Type 0 where
    pub decodes :
        cipher.b64decode
          (cipher.b64encode (nonce ++ cipher.seal key nonce (cipher.dumps payload) aad))
        ≡ some (nonce ++ cipher.seal key nonce (cipher.dumps payload) aad)
    pub unseals :
        cipher.unseal key nonce (cipher.seal key nonce (cipher.dumps payload) aad) aad
        ≡ some (cipher.dumps payload)
    pub tagged :
        length (cipher.seal key nonce (cipher.dumps payload) aad)
        ≡ length (cipher.dumps payload) + 16
    pub printed : 1 ≤ length (cipher.dumps payload)
    pub shown : String
    pub reads : cipher.loads (cipher.dumps payload) ≡ some (dict shown payload)

  take-nonce : (n : ℕ) (nonce ys : Bytes) → length nonce ≡ n → take n (nonce ++ ys) ≡ nonce
  take-nonce n nonce ys h = rw (sym h) (take-append nonce ys)

  drop-nonce : (n : ℕ) (nonce ys : Bytes) → length nonce ≡ n → drop n (nonce ++ ys) ≡ ys
  drop-nonce n nonce ys h = rw (sym h) (drop-append nonce ys)

  unsealed-sealed :
      (nonce key aad : Bytes) (payload : Fields)
      → credential_key cipher settings ≡ ok key
      → (codec : IsCodec key nonce aad payload) → length nonce ≡ 12
      → unsealed cipher settings
          (some (nonce ++ cipher.seal key nonce (cipher.dumps payload) aad))
          aad
        ≡ some (dict codec.shown payload)
  unfolding unsealed plaintext_value
  unsealed-sealed nonce key aad payload kh codec twelve =
      let ciphertext = cipher.seal key nonce (cipher.dumps payload) aad in
      let long : ltb (length (nonce ++ ciphertext)) 29 ≡ false =
        ground (arith, length-append nonce ciphertext, codec.tagged, codec.printed, twelve) in
      rw long (
        rw kh (
          rw (take-nonce 12 nonce ciphertext twelve)
            (rw (drop-nonce 12 nonce ciphertext twelve) (rw codec.unseals codec.reads))))

  -- the ciphertext behind the version
  decrypt-versioned :
      (e source_id : String) (version : ℕ)
      → decrypt_credentials cipher settings
          (String.◌∷◌ "v" (String.◌∷◌ "1" (String.◌∷◌ ":" e)))
          source_id
          version
        ≡ credentials_of (
            unsealed cipher settings
              (cipher.b64decode e)
              (aad_of cipher settings source_id version))
  unfolding decrypt_credentials Text.take Text.drop
  decrypt-versioned e source_id version = refl

  -- If the libraries decode what they encode, what `encrypt_credentials` returns for texts under a nonce
  -- of 12 bytes is decrypted to the same texts, for the same source and version.
  pub decrypt-encrypt :
      (nonce key : Bytes) (payload : Fields) (source_id encrypted : String) (version : ℕ)
      → encrypt_credentials cipher settings nonce payload source_id version ≡ ok encrypted
      → credential_key cipher settings ≡ ok key
      → IsCodec key nonce (aad_of cipher settings source_id version) payload
      → length nonce ≡ 12
      → AllTexts payload
      → decrypt_credentials cipher settings encrypted source_id version ≡ ok payload
  unfolding encrypt_credentials decrypt_credentials unsealed credentials_of plaintext_value
  decrypt-encrypt nonce key payload source_id encrypted version h kh codec twelve texts =
      let aad = aad_of cipher settings source_id version in
      let raw = nonce ++ cipher.seal key nonce (cipher.dumps payload) aad in
      let sent : ok encrypted
          ≡ ok (String.◌∷◌ "v" (String.◌∷◌ "1" (String.◌∷◌ ":" (cipher.b64encode raw)))) =
        sym h ∙ rw kh refl in
      rw (ok-injective sent) (
        rw (decrypt-versioned (cipher.b64encode raw) source_id version) (
          rw codec.decodes (
            rw (unsealed-sealed nonce key aad payload kh codec twelve)
              (ap ok (stringified-AllTexts payload texts)))))
