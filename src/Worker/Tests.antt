-- ===== src/Worker/Tests.antt =====
-- apps/worker/main.py with an execution that raises after its first transition.
use raj_data_handle.Batch.Transition.{transition_batch, record_transition}
use raj_data_handle.Execution.{transition}
use raj_data_handle.Base.{
  ℕ, ◌≡◌, refl, String, true, false, none, some, [], ◌∷◌, ◌++◌, ok, err, key_error, type_error,
  ◌==◌,
}
use raj_data_handle.Value.{end}
use raj_data_handle.BatchState.{Status, queued, failed, completed, ensure_transition}
use raj_data_handle.Batch.{Batch, Store, find_batch}
use raj_data_handle.Worker.{Execute, next_queued, process_next_batch}
use raj_data_handle.Worker.Settled.{IsSettled}
use raj_data_handle.Worker.Whole.{executed, worker-IsSettled}
use raj_data_handle.Secret.{Cipher}
use raj_data_handle.Import.Parse.{Calendar}
use raj_data_handle.Remote.Session.{Client, answered, http_error}
use raj_data_handle.Execution.Steps.{World, ◌>>=◌}
use raj_data_handle.Execution.Start.{
  execute_reconciliation_batch, guarded, read_inputs, fail_validation,
}
use raj_data_handle.Execution.Start.Inputs.{Front, validated, usable_source}

abbrev row : Status → Batch
row status = record {
  id = "b1";
  comparison_series_id = "s1";
  comparison_identity_key = none;
  run_version = 1;
  rerun_of_batch_id = none;
  source_id = "x";
  source_display_name = "X";
  source_config_version = 1;
  source_business_timezone = "UTC";
  source_currency = "INR";
  business_type = "payin";
  status = status;
  is_final = false;
  uploaded_file_name = "f.csv";
  uploaded_file_sha256 = "0";
  parameters_json = end;
  progress_json = end;
  execution_requested_by = 7;
  created_by = 7;
  error_category = none;
  cancellation_requested_at = none;
  cancelled_at = none;
  cancelled_by = none;
  cancellation_reason = none;
  created_at = 0;
  started_at = none;
  completed_at = none;
  result_expires_at = 100;
}

abbrev store_with : Batch → Store
store_with b = record {
  batches = b ∷ [];
  sources = [];
  files = [];
  references = [];
  activities = [];
  notifications = [];
}

-- the execution has committed that status and raises
abbrev broken : Status → Execute
broken status b s = (err key_error, store_with (record b { status = status }))

nothing_queued :
    process_next_batch (broken failed) (λ id. false) 5 (store_with (row completed))
    ≡ (ok false, store_with (row completed))
unfolding process_next_batch next_queued
nothing_queued = refl

locked_skipped : next_queued (λ id. id == "b1") (row queued ∷ []) ≡ none
unfolding next_queued
locked_skipped = refl

taken : next_queued (λ id. false) (row queued ∷ []) ≡ some (row queued)
unfolding next_queued
taken = refl

abbrev cipher : Cipher
cipher = record {
  seal = λ key nonce plaintext aad. plaintext;
  unseal = λ key nonce ciphertext aad. some ciphertext;
  b64encode = λ bytes. "";
  b64decode = λ s. none;
  sha256 = λ s. [];
  utf8 = λ s. [];
  dumps = λ fields. [];
  loads = λ bytes. none;
}

abbrev calendar : Calendar
calendar = record {
  Zone = Unit {0};
  Moment = ℕ;
  zone_info = λ name. some tt;
  parsers = [];
  is_naive = λ m. true;
  replaced = λ zone m. record { wall = m; isoformat = "" };
  converted = λ zone m. record { wall = m; isoformat = "" };
}

abbrev front : Front
front = record {
  cipher = cipher;
  secrets = record { credential_encryption_key = none; is_production = false; secret_key = "k" };
  sha256 = λ s. s;
  calendar = calendar;
  fromisoformat = λ s. none;
  minus_hours = λ t hours. ok t;
  plus_hours = λ t hours. ok t;
  strftime = λ t. "";
  system = record { sha256 = λ content. ""; resolve = λ root key. root ++ key ∷ [] };
  storage = record { root = "srv" ∷ []; max_bytes = 3 };
  disk = [];
  read_rows = λ content name sheet header_row. ok [];
  dict_from = λ v. err type_error;
  list_from = λ v. err type_error;
}

abbrev world : World
world = record {
  site = record {
    respond = λ sent request. answered http_error;
    generate_totp = λ sent secret. none;
    token_keys = [];
  };
  now = λ n. n;
  others = λ n s. s;
}

abbrev closed : Client
closed = record {
  username = "";
  password = "";
  totp_secret = "";
  page_size = 100;
  token = none;
  sent = [];
}

abbrev no_text : {A : Type 0} → A → String
no_text x = ""

-- the row after an execution without a source
abbrev refused : Batch
refused = record (row queued) {
  status = failed;
  started_at = some 0;
  completed_at = some 2;
  error_category = some "validation_error";
}

refuses :
    find_batch "b1"
      (process_next_batch
        (executed world front no_text no_text [] closed)
        (λ id. false)
        5
        (store_with (row queued))).1.batches
    ≡ some refused
unfolding process_next_batch executed execute_reconciliation_batch next_queued ◌>>=◌ transition
    transition_batch ensure_transition guarded read_inputs validated usable_source record_transition
    fail_validation
refuses = refl

worker-IsSettled_example : IsSettled failed
worker-IsSettled_example =
    worker-IsSettled world front no_text no_text [] closed (λ id. false) 5 (store_with (row queued))
      (row queued) refused taken refuses
