-- ===== src/Sources/Update/Stages.antt =====
-- source_service.py: the beginning and the end of `upsert_source`, and the check on `requested_enabled`.
use raj_data_handle.Base.{
  ℕ, ◌≡◌, ◌⊎◌, refl, sym, ap, ◌∙◌, String, Bool, true, false, not, ◌&&◌, ◌||◌, Option, none, some,
  List, [], ◌∷◌, ◌++◌, ok, raise_if, >>=-eq-ok, ok-injective, Bool-cases, inl, inr, arith, eq_iff,
  source_validation_error,
}
use mathlib.Core.Path.{subst}
use raj_data_handle.Batch.{Source, find_source}
use raj_data_handle.Sources.{Library, SourceSettings, is_given}
use raj_data_handle.Sources.Request.{SourceRequest, upsert, patch, contains}
use raj_data_handle.Sources.Update.{Draft, same_value, same_bool, enabled_step, closed, started}
use raj_data_handle.Sources.Update.Drafts.{contains-append, append-not_empty}

pub find_source-id :
    (id : String) (sources : List Source) {a : Source}
    → find_source id sources ≡ some a
    → a.source_id ≡ id
find_source-id id [] h = cc
find_source-id id (b ∷ sources) {a} h =
    ground (arith, eq_iff b.source_id id, find_source-id id sources {a = a})

same_value-eq : (a b : Option String) → same_value a b ≡ true → a ≡ b
same_value-eq none none h = refl
same_value-eq none (some t) h = cc
same_value-eq (some s) none h = cc
same_value-eq (some s) (some t) h = ground (arith, eq_iff s t)

-- what the check on `requested_enabled` lets through
enabled_step-cases :
    (creating : Bool) (requested : Option Bool) (d d' : Draft)
    → enabled_step creating requested d ≡ ok d'
    → (d' ≡ d)
      ⊎ ((b : Bool) × (d' ≡ record {
        source = record d.source { enabled = b };
        changed_fields = d.changed_fields ++ "enabled" ∷ [];
      })
          × (b ≡ true → d.source.last_test_status ≡ some "passed"))
unfolding enabled_step
enabled_step-cases creating none d d' e = inl (sym (ok-injective e))
enabled_step-cases creating (some b) d d' e =
    let (_, _, e₁) =
      >>=-eq-ok
        (raise_if
          (b && (not (is_given d.source.base_url) || not (is_given d.source.encrypted_credentials)))
          source_validation_error)
        _ e in
    let (_, tested, e₂) =
      >>=-eq-ok
        (raise_if (b && not (same_value d.source.last_test_status (some "passed")))
          source_validation_error)
        _ e₁ in
    elim (Bool-cases (not creating && same_bool d.source.enabled b)) [
      | inl k ↦ inl (sym (ok-injective e₂) ∙ rw k refl)
      | inr k ↦ inr (
        b,
        sym (ok-injective e₂) ∙ rw k refl,
        λ on. same_value-eq _ _ (ground (arith, tested, on)),
      )
    ]

-- the draft before and after the check on `requested_enabled`
pub record IsSettled (d d' : Draft) : Type 0 where
  pub id : d'.source.source_id ≡ d.source.source_id
  pub url : d'.source.base_url ≡ d.source.base_url
  pub credentials : d'.source.encrypted_credentials ≡ d.source.encrypted_credentials
  pub credential_version : d'.source.credential_version ≡ d.source.credential_version
  pub config_version : d'.source.config_version ≡ d.source.config_version
  pub marked : contains "base_url" d'.changed_fields ≡ contains "base_url" d.changed_fields
  pub allowed :
      d'.source.enabled ≡ true
      → (d.source.enabled ≡ true) ⊎ (d.source.last_test_status ≡ some "passed")
  pub same : d'.changed_fields ≡ [] → d' ≡ d

pub enabled_step-IsSettled :
    (creating : Bool) (requested : Option Bool) (d d' : Draft)
    → enabled_step creating requested d ≡ ok d'
    → IsSettled d d'
enabled_step-IsSettled creating requested d d' e =
    elim (enabled_step-cases creating requested d d' e) [
      | inl k ↦ subst (IsSettled d) (sym k) (record {
        id = refl;
        url = refl;
        credentials = refl;
        credential_version = refl;
        config_version = refl;
        marked = refl;
        allowed = λ on. inl on;
        same = λ n. refl;
      })
      | inr (b, k, passed) ↦ subst (IsSettled d) (sym k) (record {
        id = refl;
        url = refl;
        credentials = refl;
        credential_version = refl;
        config_version = refl;
        marked = contains-append "enabled" d.changed_fields refl;
        allowed = λ on. inr (passed on);
        same = λ n. absurd (append-not_empty d.changed_fields "enabled" n);
      })
    ]

-- the row that was stored, or a disabled one that was never tested
pub started-cases :
    (library : Library) (settings : SourceSettings) (request : SourceRequest) (actor : ℕ)
    (id : String) (o : Option Source) (source : Source)
    → started library settings request id actor o ≡ ok source
    → (o ≡ some source)
      ⊎ ((o ≡ none)
          × (source.source_id ≡ id)
          × (source.enabled ≡ false)
          × (source.last_test_status ≡ none)
          × (source.config_version ≡ 1))
unfolding started
started-cases library settings request actor id (some a) source h = inl (ap some (ok-injective h))
started-cases library settings (patch _ _ _ _ _ _) actor id none source h = cc
started-cases library settings (upsert _ _ _ _ _ _) actor id none source h =
    let row = ok-injective h in
    inr (
      refl,
      sym (ap (λ (a : Source). a.source_id) row),
      sym (ap (λ (a : Source). a.enabled) row),
      sym (ap (λ (a : Source). a.last_test_status) row),
      sym (ap (λ (a : Source). a.config_version) row),
    )

-- what the end of an upsert leaves alone
pub record IsKept (d : Draft) (row : Source) : Type 0 where
  pub id : row.source_id ≡ d.source.source_id
  pub url : row.base_url ≡ d.source.base_url
  pub credentials : row.encrypted_credentials ≡ d.source.encrypted_credentials
  pub version : row.credential_version ≡ d.source.credential_version

pub closed-IsKept :
    (touched creating : Bool) (actor : ℕ) (d : Draft) → IsKept d (closed touched creating actor d)
unfolding closed
closed-IsKept touched creating actor d =
    elim (Bool-cases (touched || contains "base_url" d.changed_fields)) [
      | inl e ↦ record {
        id = rw e refl;
        url = rw e refl;
        credentials = rw e refl;
        version = rw e refl;
      }
      | inr e ↦ record {
        id = rw e refl;
        url = rw e refl;
        credentials = rw e refl;
        version = rw e refl;
      }
    ]

pub closed-enabled :
    (touched creating : Bool) (actor : ℕ) (d : Draft)
    → (closed touched creating actor d).enabled ≡ true
    → ((touched || contains "base_url" d.changed_fields) ≡ false) × (d.source.enabled ≡ true)
unfolding closed
closed-enabled touched creating actor d h = ground arith
