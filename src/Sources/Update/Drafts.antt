-- ===== src/Sources/Update/Drafts.antt =====
-- source_service.py: what every step of `upsert_source` keeps of the stored row.
use raj_data_handle.Base.{
  ℕ, ◌≡◌, ◌≢◌, refl, sym, ◌∙◌, String, Bool, true, false, not, ◌||◌, Option, none, some, List, [],
  ◌∷◌, ◌++◌, ok, raise_if, >>=-eq-ok, ok-injective, any_of-append, ◌==◌, is_some, Bool-cases, inl,
  inr, arith, source_validation_error,
}
use mathlib.Core.Path.{subst}
use raj_data_handle.Value.{Fields, end, field}
use raj_data_handle.Batch.{Source}
use raj_data_handle.Secret.{Bytes, Cipher, SecretSettings, encrypt_credentials}
use raj_data_handle.Sources.{Library, SourceSettings, validate_timezone, normalize_base_url}
use raj_data_handle.Sources.Request.{Attributes, contains, no_fields, has_required, update_fields}
use raj_data_handle.Sources.Update.{
  Draft, same_value, set_field, set_display_name, set_currency, set_timezone, set_base_url,
  url_step, existing_credentials, incremented, version_of, store_credentials, credentials_step,
  field_steps,
}

pub append-not_empty : {A : Type 0} (xs : List A) (x : A) → (xs ++ x ∷ []) ≢ []
append-not_empty [] x h = cc
append-not_empty (y ∷ xs) x h = cc

-- A draft that stands for the row `old`: what is not yet marked as changed is as it was, and changed access
-- data have no test status. `touched` says whether the credentials were changed.
pub record IsDraft (old : Source) (touched : Bool) (d : Draft) : Type 0 where
  pub id : d.source.source_id ≡ old.source_id
  pub enabled : d.source.enabled ≡ old.enabled
  pub version : d.source.config_version ≡ old.config_version
  pub url : contains "base_url" d.changed_fields ≡ false → d.source.base_url ≡ old.base_url
  pub credentials : touched ≡ false → d.source.encrypted_credentials ≡ old.encrypted_credentials
  pub credential_version : touched ≡ false → d.source.credential_version ≡ old.credential_version
  pub status :
      (touched || contains "base_url" d.changed_fields) ≡ false
      → d.source.last_test_status ≡ old.last_test_status
  pub untested :
      (touched || contains "base_url" d.changed_fields) ≡ true → d.source.last_test_status ≡ none
  pub same : d.changed_fields ≡ [] → d.source ≡ old
  pub marked : touched ≡ true → d.changed_fields ≢ []

-- what the three fields of the loop may set
record IsLabel (set : Source → Source) : Type 0 where
  id : (s : Source) → (set s).source_id ≡ s.source_id
  enabled : (s : Source) → (set s).enabled ≡ s.enabled
  version : (s : Source) → (set s).config_version ≡ s.config_version
  url : (s : Source) → (set s).base_url ≡ s.base_url
  credentials : (s : Source) → (set s).encrypted_credentials ≡ s.encrypted_credentials
  credential_version : (s : Source) → (set s).credential_version ≡ s.credential_version
  status : (s : Source) → (set s).last_test_status ≡ s.last_test_status

pub contains-append :
    (name : String) (names : List String)
    → (name == "base_url") ≡ false
    → contains "base_url" (names ++ name ∷ []) ≡ contains "base_url" names
contains-append name names h =
    ground (arith, any_of-append (λ n. n == "base_url") names (name ∷ []))

module _ (old : Source) where
  set_field-IsDraft :
      (value next name : String) (set : Source → Source) (d : Draft)
      → IsLabel set
      → (name == "base_url") ≡ false
      → IsDraft old false d
      → IsDraft old false (set_field value next name set d)
  set_field-IsDraft value next name set d label other h = elim (Bool-cases (value == next)) [
    | inl e ↦ rw e h
    | inr e ↦ rw e (record {
      id = label.id d.source ∙ h.id;
      enabled = label.enabled d.source ∙ h.enabled;
      version = label.version d.source ∙ h.version;
      url = λ k. label.url d.source ∙ h.url (sym (contains-append name d.changed_fields other) ∙ k);
      credentials = λ k. label.credentials d.source ∙ h.credentials k;
      credential_version = λ k. label.credential_version d.source ∙ h.credential_version k;
      status = λ k.
          label.status d.source ∙ h.status (sym (contains-append name d.changed_fields other) ∙ k);
      untested = λ k.
          label.status d.source
          ∙ h.untested (sym (contains-append name d.changed_fields other) ∙ k);
      same = λ k. absurd (append-not_empty d.changed_fields name k);
      marked = λ k. absurd (cc k);
    })
  ]

  set_display_name-IsDraft :
      (o : Option String) (d d' : Draft)
      → IsDraft old false d
      → set_display_name o d ≡ ok d'
      → IsDraft old false d'
  unfolding set_display_name
  set_display_name-IsDraft none d d' h e = subst (IsDraft old false) (ok-injective e) h
  set_display_name-IsDraft (some v) d d' h e = subst (IsDraft old false) (ok-injective e) (
      set_field-IsDraft d.source.display_name v "display_name"
        (λ (s : Source). record s { display_name = v }) d
        (record {
          id = λ s. refl;
          enabled = λ s. refl;
          version = λ s. refl;
          url = λ s. refl;
          credentials = λ s. refl;
          credential_version = λ s. refl;
          status = λ s. refl;
        })
        refl h)

  set_currency-IsDraft :
      (library : Library) (o : Option String) (d d' : Draft)
      → IsDraft old false d
      → set_currency library o d ≡ ok d'
      → IsDraft old false d'
  unfolding set_currency
  set_currency-IsDraft library none d d' h e = subst (IsDraft old false) (ok-injective e) h
  set_currency-IsDraft library (some v) d d' h e = subst (IsDraft old false) (ok-injective e) (
      set_field-IsDraft d.source.currency (library.upper v) "currency"
        (λ (s : Source). record s { currency = library.upper v }) d
        (record {
          id = λ s. refl;
          enabled = λ s. refl;
          version = λ s. refl;
          url = λ s. refl;
          credentials = λ s. refl;
          credential_version = λ s. refl;
          status = λ s. refl;
        })
        refl h)

  set_timezone-IsDraft :
      (library : Library) (settings : SourceSettings) (o : Option String) (d d' : Draft)
      → IsDraft old false d
      → set_timezone library settings o d ≡ ok d'
      → IsDraft old false d'
  unfolding set_timezone
  set_timezone-IsDraft library settings none d d' h e = subst (IsDraft old false) (ok-injective e) h
  set_timezone-IsDraft library settings (some v) d d' h e =
      let (zone, _, e₁) = >>=-eq-ok (validate_timezone library settings v) _ e in
      subst (IsDraft old false) (ok-injective e₁) (
        set_field-IsDraft d.source.business_timezone zone "business_timezone"
          (λ (s : Source). record s { business_timezone = zone }) d
          (record {
            id = λ s. refl;
            enabled = λ s. refl;
            version = λ s. refl;
            url = λ s. refl;
            credentials = λ s. refl;
            credential_version = λ s. refl;
            status = λ s. refl;
          })
          refl h)

  pub field_steps-IsDraft :
      (library : Library) (settings : SourceSettings) (a : Attributes) (d d' : Draft)
      → IsDraft old false d
      → field_steps library settings a d ≡ ok d'
      → IsDraft old false d'
  unfolding field_steps
  field_steps-IsDraft library settings a d d' h e =
      let (d₁, e₁, r₁) = >>=-eq-ok (set_display_name a.display_name d) _ e in
      let (d₂, e₂, r₂) = >>=-eq-ok (set_timezone library settings a.business_timezone d₁) _ r₁ in
      set_currency-IsDraft library a.currency d₂ d'
        (set_timezone-IsDraft library settings a.business_timezone d₁ d₂
          (set_display_name-IsDraft a.display_name d d₁ h e₁) e₂)
        r₂

  set_base_url-IsDraft :
      (url : Option String) (d : Draft)
      → IsDraft old false d
      → IsDraft old false (set_base_url url d)
  unfolding set_base_url
  set_base_url-IsDraft url d h = elim (Bool-cases (same_value d.source.base_url url)) [
    | inl e ↦ rw e h
    | inr e ↦
        let marked : contains "base_url" (d.changed_fields ++ "base_url" ∷ []) ≡ true =
          ground (arith, any_of-append (λ n. n == "base_url") d.changed_fields ("base_url" ∷ [])) in
        rw e (record {
          id = h.id;
          enabled = h.enabled;
          version = h.version;
          url = λ k. absurd (cc (marked, k));
          credentials = h.credentials;
          credential_version = h.credential_version;
          status = λ k. absurd (cc (marked, k));
          untested = λ k. refl;
          same = λ k. absurd (append-not_empty d.changed_fields "base_url" k);
          marked = λ k. absurd (cc k);
        })
  ]

  pub url_step-IsDraft :
      (library : Library) (settings : SourceSettings) (a : Attributes) (d d' : Draft)
      → IsDraft old false d
      → url_step library settings a d ≡ ok d'
      → IsDraft old false d'
  unfolding url_step
  url_step-IsDraft library settings a d d' h =
      elim (Bool-cases (a.is_upsert || is_some a.base_url)) [
        | inl k ↦ rw k (λ e.
            let (url, _, e₁) = >>=-eq-ok (normalize_base_url library settings a.base_url) _ e in
            subst (IsDraft old false) (ok-injective e₁) (set_base_url-IsDraft url d h))
        | inr k ↦ rw k (λ e. subst (IsDraft old false) (ok-injective e) h)
      ]

  module _ (cipher : Cipher) (secrets : SecretSettings) where
    store_credentials-IsDraft :
        (creating : Bool) (nonce : Bytes) (now : ℕ) (given : Fields) (d d' : Draft)
        → IsDraft old false d
        → store_credentials cipher secrets creating nonce now given d ≡ ok d'
        → IsDraft old true d'
    unfolding store_credentials
    store_credentials-IsDraft creating nonce now given d d' h e =
        let (existing, _, e₁) =
          >>=-eq-ok (existing_credentials cipher secrets d.source d.source.encrypted_credentials) _
            e in
        let merged = update_fields existing given in
        let (_, _, e₂) =
          >>=-eq-ok (raise_if (not (has_required merged)) source_validation_error) _ e₁ in
        let (version, _, e₃) = >>=-eq-ok (incremented (version_of creating d.source)) _ e₂ in
        let (encrypted, _, e₄) =
          >>=-eq-ok (encrypt_credentials cipher secrets nonce merged d.source.source_id version) _
            e₃ in
        subst (IsDraft old true) (ok-injective e₄) (record {
          id = h.id;
          enabled = h.enabled;
          version = h.version;
          url = λ k. h.url (sym (contains-append "credentials" d.changed_fields refl) ∙ k);
          credentials = λ k. absurd (cc k);
          credential_version = λ k. absurd (cc k);
          status = λ k. absurd (cc k);
          untested = λ k. refl;
          same = λ k. absurd (append-not_empty d.changed_fields "credentials" k);
          marked = λ k. append-not_empty d.changed_fields "credentials";
        })

    pub credentials_step-IsDraft :
        (creating : Bool) (nonce : Bytes) (now : ℕ) (given : Fields) (d d' : Draft)
        → IsDraft old false d
        → credentials_step cipher secrets creating nonce now given d ≡ ok d'
        → IsDraft old (not (no_fields given)) d'
    unfolding credentials_step
    credentials_step-IsDraft creating nonce now end d d' h e =
        subst (IsDraft old false) (ok-injective e) h
    credentials_step-IsDraft creating nonce now (field key value rest) d d' h e =
        store_credentials-IsDraft creating nonce now (field key value rest) d d' h e
