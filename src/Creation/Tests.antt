-- ===== src/Creation/Tests.antt =====
-- The creation of a batch from a file that no template fits, on an empty store.
use raj_data_handle.Base.{◌≡◌, refl, String, true, none, some, Option, List, [], ◌∷◌, ◌++◌, map, ok}
use raj_data_handle.Text
use raj_data_handle.Value.{null, text, Fields, end}
use raj_data_handle.Batch.{Batch, Source, FileReference}
use raj_data_handle.Templates.{row, no_more}
use raj_data_handle.Storage.{same_path, find, relative_key}
use raj_data_handle.Text.{lower_codes, strip}
use raj_data_handle.Value.{str_of, put}
use raj_data_handle.Templates.{read_header_candidates, normalize_headers, in_sheet, csv_candidate}
use raj_data_handle.Templates.Detection.{
  detect_payment_template, over_candidates, over_templates, response_of,
}
use raj_data_handle.Storage.{
  store_upload, copy_chunks, chunk_size, resolve_path, settle, write, unlink,
}
use raj_data_handle.Batch.Service.{add_batch}
use raj_data_handle.Retention.Settings.{get_retention_settings}
use raj_data_handle.Creation.{
  checked, registered, created, with_file, after_checks, with_detection, identity_key, reusable,
  new_batch, Desk, Surroundings, Creation, create_batch_from_upload,
}

abbrev first : List Batch → Option Batch
first [] = none
first (b ∷ batches) = some b

abbrev surroundings : Surroundings
surroundings = record {
  system = record { sha256 = λ content. "d1"; resolve = λ root key. root ++ key ∷ [] };
  storage = record { root = "srv" ∷ []; max_bytes = 3 };
  search = λ pattern sheet. ok true;
  snapshot = λ detection. null;
  digest = λ fields. "identity";
  latest = first;
}

abbrev source : Source
source = record {
  source_id = "x";
  display_name = "X";
  enabled = true;
  base_url = none;
  encrypted_credentials = none;
  credential_version = 0;
  config_version = 1;
  business_timezone = "UTC";
  currency = "INR";
  credential_updated_at = none;
  last_tested_at = none;
  last_test_status = none;
  last_test_request_id = none;
  created_by = none;
  updated_by = none;
}

abbrev small_creation : Creation
small_creation = record {
  upload = record {
    file_name = "pay.csv";
    suffix = ".csv";
    worksheets = none;
    csv_rows = some (row (text "a" ∷ []) no_more);
  };
  file = record { content = 97 ∷ []; content_type = none };
  source_id = "x";
  business_type = "payin";
  header_row = none;
  parameters = end;
  actor_user_id = 7;
  templates = [];
  defaults = record {
    uploaded_file_retention_days = 3;
    result_retention_days = 30;
    remote_cache_retention_days = 30;
  };
  temporary = "srv" ∷ "upload-1" ∷ [];
  now = 5;
  batch_id = "b1";
  series_id = "s1";
  file_id = "f1";
}

abbrev desk : Desk
desk = record {
  store = record {
    batches = [];
    sources = source ∷ [];
    files = [];
    references = [];
    activities = [];
    notifications = [];
  };
  settings = record { row = none; audit = [] };
  disk = [];
}

abbrev shown : Fields → String
shown fields = ""

referenced :
    map
      (λ (r : FileReference). r.file_object_id)
      (create_batch_from_upload surroundings shown small_creation desk).1.store.references
    ≡ "f1" ∷ []
unfolding create_batch_from_upload checked lower_codes strip detect_payment_template
    read_header_candidates csv_candidate in_sheet normalize_headers str_of over_candidates
    over_templates response_of store_upload copy_chunks chunk_size resolve_path settle find write
    unlink same_path relative_key Text.take registered created with_file add_batch after_checks
    get_retention_settings with_detection identity_key reusable new_batch put
referenced = refl
