-- ===== src/Base/Raise.antt =====
-- Python code that may raise. An exception is its class; the texts that the program attaches to
-- its exceptions are for display and are left out.
use mathlib.Core.Path.{◌≡◌, refl}
use mathlib.Core.Bool.{Bool, true, false}

pub data Exception : Type 0 where
  -- the builtin classes and `decimal.InvalidOperation`
  type_error value_error key_error overflow_error assertion_error attribute_error : Exception
  invalid_operation : Exception
  -- `zoneinfo.ZoneInfoNotFoundError`, a `KeyError`
  zone_not_found : Exception
  -- `batch_state.InvalidBatchTransition` and `batch_service.BatchValidationError`
  invalid_batch_transition batch_validation_error : Exception
  -- `payment_import_service.PaymentImportError`, `security.SecurityValidationError`
  payment_import_error security_validation_error : Exception
  -- `RemoteAuthenticationError`, `RemoteResponseError`, and the plain `RemoteChargeError`
  remote_authentication_error remote_response_error remote_charge_error : Exception
  -- `reconciliation_execution_service.ReconciliationExecutionError`
  execution_error : Exception
  -- `sqlalchemy.exc.InvalidRequestError` and `IntegrityError`
  invalid_request_error integrity_error : Exception
  -- `auth_service.AuthError`, and those of source_service.py
  auth_error source_validation_error source_conflict_error source_not_found_error : Exception
  -- those of rate_limit_service.py
  login_rate_limit_exceeded login_rate_limit_unavailable : Exception
  -- `payment_template_service.TemplateDetectionError`, `local.UploadTooLargeError`
  template_detection_error upload_too_large_error : Exception
  -- any exception of a library that no handler names, such as `RecursionError` of `response.json()`
  library_error : Exception
  -- no Python exception: a loop of the model that met the end of its fuel
  out_of_fuel : Exception

-- a value, or what was raised on the way to it
pub data Result {ℓ} (A : Type ℓ) : Type ℓ where
  err : (raised : Exception) → Result A
  ok : (value : A) → Result A

-- the code after a statement; an exception skips it
abbrev pub bind_result {ℓ κ} :
    {A : Type ℓ} {B : Type κ} (m : Result A) (after : A → Result B) → Result B
bind_result (err raised) after = err raised
bind_result (ok value) after = after value

-- `if b: raise e`
abbrev pub raise_if : Bool → Exception → Result (Unit {0})
raise_if true e = err e
raise_if false e = ok tt

infixl 5 ◌>>=◌ ◌>>◌
abbrev pub ◌>>=◌ {ℓ κ} : {A : Type ℓ} {B : Type κ} → Result A → (A → Result B) → Result B
m >>= after = bind_result m after

abbrev pub ◌>>◌ {κ} : {B : Type κ} (m : Result (Unit {0})) (after : Result B) → Result B
m >> after = bind_result m λ _. after

-- `ValueError` and its subclasses
abbrev pub is_value_error : Exception → Bool
is_value_error value_error = true
is_value_error invalid_batch_transition = true
is_value_error batch_validation_error = true
is_value_error payment_import_error = true
is_value_error security_validation_error = true
is_value_error auth_error = true
is_value_error source_validation_error = true
is_value_error source_conflict_error = true
is_value_error source_not_found_error = true
is_value_error login_rate_limit_exceeded = true
is_value_error template_detection_error = true
is_value_error upload_too_large_error = true
is_value_error _ = false

-- `KeyError` and its subclasses
abbrev pub is_key_error : Exception → Bool
is_key_error key_error = true
is_key_error zone_not_found = true
is_key_error _ = false

-- `RemoteChargeError` and its subclasses
abbrev pub is_remote_error : Exception → Bool
is_remote_error remote_authentication_error = true
is_remote_error remote_response_error = true
is_remote_error remote_charge_error = true
is_remote_error _ = false

-- a chain that returns is made of parts that return
pub >>=-eq-ok {ℓ κ} :
    {A : Type ℓ} {B : Type κ} (m : Result A) (after : A → Result B) {b : B}
    → bind_result m after ≡ ok b
    → (a : A) × (m ≡ ok a) × (after a ≡ ok b)
>>=-eq-ok (err raised) after h = cc
>>=-eq-ok (ok value) after h = (value, refl, h)

-- a chain raises only what its parts raise
pub bind-raises {ℓ κ} :
    {A : Type ℓ} {B : Type κ} (E : Exception → Type 0) (m : Result A) (f : A → Result B)
    → ((e : Exception) → m ≡ err e → E e)
    → ((a : A) (e : Exception) → f a ≡ err e → E e)
    → (e : Exception) → bind_result m f ≡ err e
    → E e
bind-raises E (ok a) f h k e q = k a e q
bind-raises E (err x) f h k e q = h e (cc)

pub ok-injective {ℓ} : {A : Type ℓ} {a b : A} → ok a ≡ ok b → a ≡ b
ok-injective h = cc
