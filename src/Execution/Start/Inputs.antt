-- ===== src/Execution/Start/Inputs.antt =====
-- reconciliation_execution_service.py: `_template_snapshot`, `_uploaded_path`, and all that the first
-- `try` reads. What the libraries do with times and files is an argument.
pub mod Ready
use raj_data_handle.Base.{
  ℕ, String, Bool, true, not, ◌||◌, Option, none, some, List, [], ◌∷◌, ◌++◌, Result, ok, err, ◌>>=◌,
  execution_error, type_error, invalid_request_error, is_some, eqb, keep, ◌==◌, if◌then◌else◌,
}
use raj_data_handle.Base.Int.{ℤ}
use raj_data_handle.Text.{is_empty}
use raj_data_handle.Value.{
  Value, text, list, dict, Items, nil, item, Fields, end, get, item_at, str_of, int_of,
}
use raj_data_handle.Payment.{DateTime}
use raj_data_handle.Batch.{Batch, Source, FileObject, FileReference, Store, find_source}
use raj_data_handle.Import.Parse.{Calendar, Cell}
use raj_data_handle.Import.Groups.{PaymentImportResult, ImportRequest, import_payment_orders}
use raj_data_handle.Remote.{Channel}
use raj_data_handle.Secret.{Cipher, SecretSettings, decrypt_credentials}
use raj_data_handle.Storage.{Content, Disk, find, System, LocalFileStorage, resolve_path}

-- the libraries and the system, as an execution meets them
pub record Front : Type 1 where
  pub cipher : Cipher
  pub secrets : SecretSettings
  pub sha256 : String → String
  pub calendar : Calendar
  -- `datetime.fromisoformat`; `none` is the `ValueError`
  pub fromisoformat : String → Option calendar.Moment
  -- `t - timedelta(hours=h)` and `t + timedelta(hours=h)`, which may overflow
  pub minus_hours : DateTime → ℤ → Result DateTime
  pub plus_hours : DateTime → ℤ → Result DateTime
  -- `t.strftime("%Y-%m-%d %H:%M:%S")`
  pub strftime : DateTime → String
  -- the uploads
  pub system : System
  pub storage : LocalFileStorage
  pub disk : Disk
  -- the rows of a file with this name, worksheet and header row
  pub read_rows :
      Content
      → (file_name source_sheet : String) → (header_row : ℤ)
      → Result (List (ℕ × List (String × Cell calendar.Moment)))
  -- `dict(v)` of what is no dict, and `list(v)` of what is no list
  pub dict_from : Value → Result Fields
  pub list_from : Value → Result Items

-- `value[key]` with a text as the key
unfoldable pub item_of : String → Value → Result Value
item_of key (dict _ fields) = item_at key fields
item_of key _ = err type_error

-- what follows the first `try`
pub record ReadInputs : Type 0 where
  pub credentials : Fields
  pub window : Value
  pub imported : PaymentImportResult

-- `not text`
is_absent : Option String → Bool
is_absent none = true
is_absent (some s) = is_empty s

text_of : Option String → String
text_of none = ""
text_of (some s) = s

-- the source as the batch was made for it
unfoldable pub usable_source : Batch → Option Source → Result Source
unfolding is_absent
usable_source b none = err execution_error
usable_source b (some source) =
    if not source.enabled
      || is_absent source.base_url
      || is_absent source.encrypted_credentials
      || not (eqb source.config_version b.source_config_version)
    then err execution_error
    else ok source

snapshot_of : Fields → Value → Result (Fields × Fields)
snapshot_of detection (dict _ template) = ok (detection, template)
snapshot_of detection _ = err execution_error

snapshot_in : Value → Result (Fields × Fields)
unfolding snapshot_of
snapshot_in (dict _ detection) = snapshot_of detection (get "template" detection)
snapshot_in _ = err execution_error

-- `_template_snapshot`
unfoldable pub template_snapshot : Fields → Result (Fields × Fields)
unfolding snapshot_in
template_snapshot parameters = snapshot_in (get "templateDetection" parameters)

-- the files that the references of a batch name
unfoldable pub referenced_files :
    (batch_id : String) → List FileReference → List FileObject → List FileObject
referenced_files batch_id [] files = []
referenced_files batch_id (r ∷ references) files =
    let rest = referenced_files batch_id references files in
    if r.batch_id == batch_id
    then keep (λ (f : FileObject). f.id == r.file_object_id) files ++ rest
    else rest

-- `scalar_one_or_none`, and the test on the row
one_file : List FileObject → Result FileObject
one_file [] = err execution_error
one_file (f ∷ []) = if is_some f.deleted_at then err execution_error else ok f
one_file (f ∷ g ∷ files) = err invalid_request_error

is_file : Option Content → Result Content
is_file none = err execution_error
is_file (some content) = ok content

-- `_uploaded_path`, with what the file holds
unfoldable pub uploaded_content : Front → (batch_id : String) → Store → Result Content
unfolding one_file is_file
uploaded_content front batch_id s = do
  f ← one_file (referenced_files batch_id s.references s.files)
  path ← resolve_path front.system front.storage f.storage_key
  is_file (find path front.disk)

abbrev as_dict : Front → Value → Result Fields
as_dict front (dict _ fields) = ok fields
as_dict front v = front.dict_from v

abbrev as_list : Front → Value → Result Items
as_list front (list _ items) = ok items
as_list front v = front.list_from v

-- the arguments of `import_payment_orders`, with the header row
unfoldable pub import_request :
    Front → Batch → (detection template : Fields) → Value → Result (ImportRequest × ℤ)
import_request front b detection template window = do
  platform_key ← item_at "platformKey" template
  source_sheet ← item_at "sourceSheet" detection
  header ← item_at "headerRow" detection
  header_row ← int_of header
  mapping ← item_at "columnMapping" template
  column_mapping ← as_dict front mapping
  statuses ← item_at "successStatusValues" template
  success_status_values ← as_list front statuses
  time_field ← item_of "paymentTimeField" window
  zone ← item_of "paymentTimezone" window
  start ← item_of "start" window
  stop ← item_of "end" window
  currency ← item_at "currency" b.parameters_json
  ok (
    record {
      platform_key = str_of platform_key;
      source_sheet = str_of source_sheet;
      column_mapping = column_mapping;
      success_status_values = success_status_values;
      payment_time_field = str_of time_field;
      payment_timezone = str_of zone;
      window_start = str_of start;
      window_end = str_of stop;
      currency = str_of currency;
    },
    header_row,
  )

-- the body of the first `try`
unfoldable pub validated : Front → Batch → Store → Result ReadInputs
unfolding text_of
validated front b s = do
  source ← usable_source b (find_source b.source_id s.sources)
  credentials ←
      decrypt_credentials front.cipher front.secrets (text_of source.encrypted_credentials)
        source.source_id source.credential_version
  (detection, template) ← template_snapshot b.parameters_json
  window ← item_at "comparisonWindow" b.parameters_json
  content ← uploaded_content front b.id s
  (request, header_row) ← import_request front b detection template window
  imported ←
      import_payment_orders front.sha256 front.calendar request
        (front.read_rows content b.uploaded_file_name request.source_sheet header_row)
  ok (record { credentials = credentials; window = window; imported = imported })

channel_at : Value → Result Channel
channel_at (dict _ fields) = do
  code ← item_at "code" fields
  label ← item_at "label" fields
  ok (record { code = str_of code; label = str_of label })
channel_at _ = err type_error

channels_in : Items → Result (List Channel)
unfolding channel_at
channels_in nil = ok []
channels_in (item v rest) = do
  channel ← channel_at v
  channels ← channels_in rest
  ok (channel ∷ channels)

-- iteration over the value; the members of a text and the keys of a dict are no dicts
channels_of : Value → Result (List Channel)
unfolding channels_in
channels_of (list _ items) = channels_in items
channels_of (dict _ end) = ok []
channels_of (text s) = if is_empty s then ok [] else err type_error
channels_of _ = err type_error

-- the list of the selected channels
unfoldable pub selected_channels : Fields → Result (List Channel)
unfolding channels_of
selected_channels parameters = do channels_of (← item_at "selectedChannels" parameters)
