-- ===== src/Execution/Tests.antt =====
-- A payment that the site does not know, from the comparison to the recheck.
use raj_data_handle.Base.{◌≡◌, refl, inl, false, none, some, List, [], ◌∷◌}
use raj_data_handle.Base.Int.{pos}
use raj_data_handle.Value.{int, list, dict, nil, end, field, get, truthy, int_of}
use raj_data_handle.Payment.{PaymentOrderGroup, success, confirmed_missing}
use raj_data_handle.Engine.{compare_with_remote_orders}
use raj_data_handle.BatchState.{comparing, ensure_transition, allowed_transitions}
use raj_data_handle.Batch.{Batch}
use raj_data_handle.Batch.Transition.{moved, record_transition, transition_batch}
use raj_data_handle.Remote.{Channel, get_json, login, response_data}
use raj_data_handle.Remote.Session.{
  Request, post_login, get_path, Response, response, answered, Client, Site, send,
}
use raj_data_handle.Remote.Session as Session
use raj_data_handle.Remote.Orders.{fetch_charge_page, exact_search}
use raj_data_handle.Execution.Steps.{Run, World, value, ◌>>=◌}
use raj_data_handle.Execution.{
  Decided, set_progress, is_cancelled, transition, sorted_out, first_pass, after_search,
  unless_cancelled, recheck_one, report, recheck, recheck_all, decide,
}
use raj_data_handle.Execution.Decisions.{Unanswered}
use raj_data_handle.Base.{String, true, keep, map}
use raj_data_handle.Execution.Publish.{result_row, save_results, finalize, publish}
use raj_data_handle.Execution.Publish.Rows.{is_own, publish-rows}
use raj_data_handle.Execution.Confirmed.{IsMissing, confirmed-IsMissing}

abbrev nothing : Request → Response
nothing (post_login _ _ _) = response 500 none
nothing (get_path _ _ _) = response 200 (
    some (
      dict "" (
        field "data"
          (dict "" (
            field "items" (list "" nil) (
              field "pageInfo"
                (dict "" (field "total" (int (pos 0)) (field "totalPage" (int (pos 1)) end))) end)))
          end)))

abbrev world : World
world = record {
  site = record {
    respond = λ sent r. answered (nothing r);
    generate_totp = λ sent s. none;
    token_keys = [];
  };
  now = λ n. n;
  others = λ n s. s;
}

abbrev batch : Batch
batch = record {
  id = "b1";
  comparison_series_id = "s1";
  comparison_identity_key = none;
  run_version = 1;
  rerun_of_batch_id = none;
  source_id = "x";
  source_display_name = "X";
  source_config_version = 1;
  source_business_timezone = "UTC";
  source_currency = "INR";
  business_type = "payin";
  status = comparing;
  is_final = false;
  uploaded_file_name = "f.csv";
  uploaded_file_sha256 = "0";
  parameters_json = end;
  progress_json = end;
  execution_requested_by = 7;
  created_by = 7;
  error_category = none;
  cancellation_requested_at = none;
  cancelled_at = none;
  cancelled_by = none;
  cancellation_reason = none;
  created_at = 0;
  started_at = some 1;
  completed_at = none;
  result_expires_at = 100;
}

abbrev start : Run
start = record {
  batch = batch;
  store = record {
    batches = batch ∷ [];
    sources = [];
    files = [];
    references = [];
    activities = [];
    notifications = [];
  };
  results = [];
  client = record {
    username = "u";
    password = "p";
    totp_secret = "s";
    page_size = 100;
    token = some "t";
    sent = [];
  };
  moment = 0;
}

abbrev channels : List Channel
channels = record { code = "c"; label = "C" } ∷ []

abbrev payment : PaymentOrderGroup
payment = record {
  order_group_id = "g";
  merchant_order_no = some "A1";
  platform_order_no = none;
  amount = none;
  currency = "INR";
  payment_status_raw = some "paid";
  payment_status_group = success;
  payment_time = none;
  source_sheet = "s";
  source_row_numbers = 2 ∷ [];
  duplicate_count = 1;
  preliminary_result_status = none;
  platform_key = "k";
}

abbrev lost : Decided
lost = (payment, record { result_status = confirmed_missing; remote_order = none })

decides : (decide world channels [] (payment ∷ []) start).0 ≡ value (lost ∷ [])
unfolding decide ◌>>=◌ first_pass compare_with_remote_orders set_progress recheck_all sorted_out
    unless_cancelled is_cancelled transition transition_batch ensure_transition allowed_transitions
    moved record_transition recheck recheck_one exact_search Session.◌>>=◌ fetch_charge_page
    get_json login send response_data get truthy int_of after_search report
decides = refl

confirmed-IsMissing_example : Unanswered [] payment × IsMissing world channels payment
confirmed-IsMissing_example =
    confirmed-IsMissing world channels [] (payment ∷ []) start (lost ∷ []) lost decides (inl refl)
      refl refl

abbrev no_text : {A : Type 0} → A → String
no_text x = ""

publishes : (publish world no_text no_text (lost ∷ []) start).0 ≡ value tt
unfolding publish ◌>>=◌ save_results unless_cancelled is_cancelled set_progress transition
    transition_batch ensure_transition allowed_transitions moved record_transition finalize
publishes = refl

publish-rows_example :
    keep (is_own "b1") (publish world no_text no_text (lost ∷ []) start).1.results
    ≡ map (λ x. record (result_row no_text no_text "b1" x) { is_final = true }) (lost ∷ [])
publish-rows_example = publish-rows world no_text no_text (lost ∷ []) start publishes
