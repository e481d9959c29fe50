-- ===== src/Execution/Steps.antt =====
-- reconciliation_execution_service.py: the state of one execution, and the steps of an `async`
-- function on it: a value, an exception, or an early `return`.
use raj_data_handle.Base.{ℕ, String, Bool, Option, List, Result, ok, err, Exception}
use raj_data_handle.Value.{Fields}
use raj_data_handle.Payment.{PaymentStatusGroup, ResultStatus}
use raj_data_handle.Batch.{Batch, Store}
use raj_data_handle.Remote.Session.{Client, Site, Action}

-- `OrderReconciliationResult`
pub record OrderResult : Type 0 where
  pub batch_id : String
  pub order_group_id : String
  pub result_status : ResultStatus
  pub payment_status_raw : Option String
  pub payment_status_group : PaymentStatusGroup
  pub merchant_order_no : Option String
  pub platform_order_no : Option String
  pub payload_json : Fields
  pub is_final : Bool

-- `batch` is the object that the execution holds; its row in the store may be newer
pub record Run : Type 0 where
  pub batch : Batch
  pub store : Store
  pub results : List OrderResult
  pub client : Client
  -- how often the execution has looked at the clock or refreshed its batch
  pub moment : ℕ

-- what is around an execution: the remote site, the clock, and what other sessions have committed
-- when the batch is refreshed
pub record World : Type 0 where
  pub site : Site
  pub now : ℕ → ℕ
  pub others : ℕ → Store → Store

pub data Outcome (A : Type 0) : Type 0 where
  value : A → Outcome A
  raised : Exception → Outcome A
  returned : Outcome A

abbrev pub Task : Type 0 → Type 0
Task A = Run → Outcome A × Run

abbrev pub pure : {A : Type 0} → A → Task A
pure a s = (value a, s)

abbrev pub return_early : {A : Type 0} → Task A
return_early s = (returned, s)

abbrev pub proceed : {A B : Type 0} → Outcome A → (A → Task B) → Task B
proceed (value a) f s = f a s
proceed (raised e) f s = (raised e, s)
proceed returned f s = (returned, s)

infixl 5 ◌>>=◌ ◌>>◌
unfoldable pub ◌>>=◌ : {A B : Type 0} → Task A → (A → Task B) → Task B
◌>>=◌ m f s = let (r, t) = m s in proceed r f t

abbrev pub ◌>>◌ : {A B : Type 0} → Task A → Task B → Task B
m >> k = m >>= λ _. k

abbrev outcome_of : {A : Type 0} → Result A → Outcome A
outcome_of (ok a) = value a
outcome_of (err e) = raised e

abbrev pub lift : {A : Type 0} → Result A → Task A
lift r s = (outcome_of r, s)

-- a call of the client
abbrev pub remote : {A : Type 0} → Action A → Task A
remote action s = let (r, c) = action s.client in (outcome_of r, record s { client = c })
