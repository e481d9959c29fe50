-- ===== src/Batch.antt =====
-- The rows of packages/domain/models/entities.py that packages/domain/services/batch_service.py
-- reads and writes, and the store that holds them. Times are numbers; every reading of the clock
-- and every new id is an argument of the operation that takes it.
pub mod Transition
pub mod Validation
pub mod Service
mod Tests
use raj_data_handle.Base.{
  ℕ, String, Bool, true, false, Option, none, some, List, [], ◌∷◌, ◌==◌, if◌then◌else◌,
}
use raj_data_handle.Value.{Fields}
use raj_data_handle.BatchState.{Status}

-- `ReconciliationBatch`
pub record Batch : Type 0 where
  pub id : String
  pub comparison_series_id : String
  pub comparison_identity_key : Option String
  pub run_version : ℕ
  pub rerun_of_batch_id : Option String
  pub source_id : String
  pub source_display_name : String
  pub source_config_version : ℕ
  pub source_business_timezone : String
  pub source_currency : String
  pub business_type : String
  pub status : Status
  pub is_final : Bool
  pub uploaded_file_name : String
  pub uploaded_file_sha256 : String
  pub parameters_json : Fields
  pub progress_json : Fields
  pub execution_requested_by : ℕ
  pub created_by : ℕ
  pub error_category : Option String
  pub cancellation_requested_at : Option ℕ
  pub cancelled_at : Option ℕ
  pub cancelled_by : Option ℕ
  pub cancellation_reason : Option String
  pub created_at : ℕ
  pub started_at : Option ℕ
  pub completed_at : Option ℕ
  pub result_expires_at : ℕ

-- `SourceConfig`
pub record Source : Type 0 where
  pub source_id : String
  pub display_name : String
  pub enabled : Bool
  pub base_url : Option String
  pub encrypted_credentials : Option String
  pub credential_version : ℕ
  pub config_version : ℕ
  pub business_timezone : String
  pub currency : String
  pub credential_updated_at : Option ℕ
  pub last_tested_at : Option ℕ
  pub last_test_status : Option String
  pub last_test_request_id : Option String
  pub created_by : Option ℕ
  pub updated_by : Option ℕ

-- `StoredFileObject`
pub record FileObject : Type 0 where
  pub id : String
  pub content_sha256 : String
  pub storage_key : String
  pub byte_size : ℕ
  pub content_type : Option String
  pub deleted_at : Option ℕ

-- `StoredFileReference`
pub record FileReference : Type 0 where
  pub file_object_id : String
  pub batch_id : String
  pub expires_at : ℕ

-- `BatchActivityLog`
pub record Activity : Type 0 where
  pub batch_id : String
  pub actor_user_id : Option ℕ
  pub action : String
  pub from_status : Option Status
  pub to_status : Option Status
  pub metadata_json : Fields

-- `UserNotification` as it is created; `summary_json` holds these texts and the status
pub record UserNotification : Type 0 where
  pub user_id : ℕ
  pub event_type : String
  pub batch_id : String
  pub run_version : ℕ
  pub title : String
  pub source_name : String
  pub business_type : String
  pub summary_status : Status

pub record Store : Type 0 where
  pub batches : List Batch
  pub sources : List Source
  pub files : List FileObject
  pub references : List FileReference
  pub activities : List Activity
  pub notifications : List UserNotification

-- `session.get(ReconciliationBatch, batch_id)`
abbrev pub find_batch : String → List Batch → Option Batch
find_batch id [] = none
find_batch id (b ∷ batches) = if b.id == id then some b else find_batch id batches

-- the columns that an operation sets, written to the row of that id
abbrev pub update_batch : String → (Batch → Batch) → List Batch → List Batch
update_batch id f [] = []
update_batch id f (b ∷ batches) =
    if b.id == id then f b ∷ batches else b ∷ update_batch id f batches

-- `session.get(SourceConfig, source_id)`
abbrev pub find_source : String → List Source → Option Source
find_source id [] = none
find_source id (x ∷ sources) = if x.source_id == id then some x else find_source id sources
