-- ===== src/Results.antt =====
-- packages/domain/services/result_service.py: the exported rows of a batch. Writing them as CSV or as
-- a workbook is the work of libraries; the queries are arguments.
pub mod Export
mod Tests
use Prim.Native.Char.{code}
use Prim.Native.String
use raj_data_handle.Base.{
  ℕ, zero, suc, String, Bool, true, false, not, ◌||◌, ◌&&◌, Option, none, some, List, [], ◌∷◌, ◌++◌,
  map, eqb, any_of, keep, length, ◌==◌, if◌then◌else◌,
}
use raj_data_handle.Base.Int.{pos}
use raj_data_handle.Value.{
  Value, null, int, text, list, dict, Items, nil, item, Fields, end, field, get, str_of,
}
use raj_data_handle.Payment.{
  PaymentStatusGroup, success, non_success, unknown, ResultStatus, matched, matched_after_recheck,
  amount_mismatch, remote_status_not_success, order_reference_conflict, invalid_payment_row,
  duplicate_payment_conflict, confirmed_missing, recheck_inconclusive, candidate_missing,
}
use raj_data_handle.BatchState.{
  Status, uploaded, awaiting_confirmation, queued, validating, fetching_remote, comparing,
  rechecking, cancelling, completed, failed, comparison_incomplete, cancelled,
}
use raj_data_handle.Batch.{Batch}
use raj_data_handle.Execution.Steps.{OrderResult}

-- the texts of the two columns
unfoldable pub status_text : ResultStatus → String
status_text matched = "matched"
status_text matched_after_recheck = "matched_after_recheck"
status_text amount_mismatch = "amount_mismatch"
status_text remote_status_not_success = "remote_status_not_success"
status_text order_reference_conflict = "order_reference_conflict"
status_text invalid_payment_row = "invalid_payment_row"
status_text duplicate_payment_conflict = "duplicate_payment_conflict"
status_text confirmed_missing = "confirmed_missing"
status_text recheck_inconclusive = "recheck_inconclusive"
status_text candidate_missing = "candidate_missing"

unfoldable pub group_text : PaymentStatusGroup → String
group_text success = "success"
group_text non_success = "non_success"
group_text unknown = "unknown"

-- `value.startswith(("=", "+", "-", "@"))`
starts_formula : String → Bool
starts_formula String.[] = false
starts_formula (String.◌∷◌ c s) =
    eqb (code c) b'=' || eqb (code c) b'+' || eqb (code c) b'-' || eqb (code c) b'@'

-- `_safe_export_value`
unfoldable pub safe_export_value : Value → Value
unfolding starts_formula
safe_export_value (text s) = if starts_formula s then text (String.◌∷◌ "'" s) else text s
safe_export_value v = v

or_null : Option String → Value
or_null none = null
or_null (some s) = text s

-- `",".join(str(item) for item in source_rows)`
joined_from : Items → String
joined_from nil = ""
joined_from (item v rest) = String.◌++◌ "," (String.◌++◌ (str_of v) (joined_from rest))

joined : Value → String
unfolding joined_from
joined (list _ (item v rest)) = String.◌++◌ (str_of v) (joined_from rest)
joined _ = ""

dict_or_empty : Value → Fields
dict_or_empty (dict _ fields) = fields
dict_or_empty _ = end

-- `result_record`
unfoldable pub result_record : OrderResult → Fields
unfolding status_text group_text or_null joined dict_or_empty
result_record row =
    let payload = row.payload_json in
    let remote = dict_or_empty (get "remoteOrder" payload) in
    field "resultStatus" (text (status_text row.result_status)) (
      field "paymentStatusGroup" (text (group_text row.payment_status_group)) (
        field "paymentStatusRaw" (or_null row.payment_status_raw) (
          field "merchantOrderNo" (or_null row.merchant_order_no) (
            field "platformOrderNo" (or_null row.platform_order_no) (
              field "amount" (get "amount" payload) (
                field "currency" (get "currency" payload) (
                  field "paymentTime" (get "paymentTime" payload) (
                    field "platformKey" (get "platformKey" payload) (
                      field "sourceSheet" (get "sourceSheet" payload) (
                        field "sourceRowNumbers" (text (joined (get "sourceRowNumbers" payload))) (
                          field "duplicateCount" (get "duplicateCount" payload) (
                            field "remoteOrderNum" (get "order_num" remote) (
                              field "remoteOutTradeNo" (get "out_trade_no" remote) (
                                field "remoteStatus" (get "status" remote) (
                                  field "remoteChannel" (get "_remote_channel_label" remote)
                                    end)))))))))))))))

-- `EXPORT_COLUMNS`
unfoldable pub export_columns : List (String × String)
export_columns =
    ("比对结果", "resultStatus")
    ∷ ("支付状态分类", "paymentStatusGroup")
    ∷ ("支付平台状态", "paymentStatusRaw")
    ∷ ("商户订单号", "merchantOrderNo")
    ∷ ("支付平台订单号", "platformOrderNo")
    ∷ ("金额", "amount")
    ∷ ("币种", "currency")
    ∷ ("支付时间", "paymentTime")
    ∷ ("支付平台", "platformKey")
    ∷ ("来源工作表", "sourceSheet")
    ∷ ("来源行号", "sourceRowNumbers")
    ∷ ("重复行数", "duplicateCount")
    ∷ ("远端订单号", "remoteOrderNum")
    ∷ ("远端平台订单号", "remoteOutTradeNo")
    ∷ ("远端状态", "remoteStatus")
    ∷ ("远端渠道", "remoteChannel")
    ∷ []

-- the cells of a row
unfoldable pub export_row : OrderResult → List Value
export_row row =
    map (λ (column : String × String). safe_export_value (get column.1 (result_record row)))
      export_columns

-- the rows of the CSV file, or of a sheet, with the header
unfoldable pub export_rows : List OrderResult → List (List Value)
export_rows rows =
    map (λ (column : String × String). text column.0) export_columns ∷ map export_row rows

-- `row.result_status in statuses`
has_status : List String → OrderResult → Bool
has_status statuses row = any_of (λ s. status_text row.result_status == s) statuses

-- the sheets of the workbook after the first
unfoldable pub sheets : List OrderResult → List (String × List OrderResult)
unfolding has_status
sheets rows =
    ("确认遗漏", keep (has_status ("confirmed_missing" ∷ [])) rows)
    ∷ ("远端状态异常", keep (has_status ("remote_status_not_success" ∷ [])) rows)
    ∷ ("待复查", keep (has_status ("recheck_inconclusive" ∷ "candidate_missing" ∷ [])) rows)
    ∷ (
      "重复数据冲突",
      keep
          (has_status (
            "duplicate_payment_conflict" ∷ "order_reference_conflict" ∷ "invalid_payment_row" ∷ []))
          rows,
    )
    ∷ (
      "全部明细",
      keep (has_status (map (λ (row : OrderResult). status_text row.result_status) rows)) rows,
    )
    ∷ []

-- `batch.status`
batch_status : Status → String
batch_status uploaded = "uploaded"
batch_status awaiting_confirmation = "awaiting_confirmation"
batch_status queued = "queued"
batch_status validating = "validating"
batch_status fetching_remote = "fetching_remote"
batch_status comparing = "comparing"
batch_status rechecking = "rechecking"
batch_status cancelling = "cancelling"
batch_status completed = "completed"
batch_status failed = "failed"
batch_status comparison_incomplete = "comparison_incomplete"
batch_status cancelled = "cancelled"

-- the texts of the result statuses, sorted
abbrev sorted_statuses : List String
sorted_statuses =
    "amount_mismatch" ∷ "candidate_missing" ∷ "confirmed_missing" ∷ "duplicate_payment_conflict"
    ∷ "invalid_payment_row" ∷ "matched" ∷ "matched_after_recheck" ∷ "order_reference_conflict"
    ∷ "recheck_inconclusive" ∷ "remote_status_not_success" ∷ []

abbrev pub count_cell : {A : Type 0} → List A → Value
count_cell rows = int (pos (length rows))

-- `sorted(Counter(row.result_status for row in rows).items())`
sorted_counts : List OrderResult → List String → List (List Value)
unfolding has_status
sorted_counts rows [] = []
sorted_counts rows (s ∷ statuses) =
    let rest = sorted_counts rows statuses in
    let count = keep (has_status (s ∷ [])) rows in
    if eqb (length count) 0 then rest else (text s ∷ count_cell count ∷ []) ∷ rest

is_missing_success : OrderResult → Bool
is_missing_success row =
    status_text row.result_status == "confirmed_missing"
    && group_text row.payment_status_group == "success"

-- the rows of the first sheet; none of its cells passes `_safe_export_value`
unfoldable pub summary : Batch → List OrderResult → List (List Value)
unfolding batch_status sorted_counts is_missing_success
summary batch rows =
    (text "项目" ∷ text "值" ∷ [])
    ∷ (text "批次 ID" ∷ text batch.id ∷ [])
    ∷ (text "盘口" ∷ text batch.source_display_name ∷ [])
    ∷ (text "执行版本" ∷ int (pos batch.run_version) ∷ [])
    ∷ (text "状态" ∷ text (batch_status batch.status) ∷ [])
    ∷ (sorted_counts rows sorted_statuses
        ++ (text "confirmed_missing_success" ∷ count_cell (keep is_missing_success rows) ∷ []) ∷ [])

-- `export_excel`
unfoldable pub export_excel : Batch → List OrderResult → List (String × List (List Value))
export_excel batch rows =
    ("汇总", summary batch rows)
    ∷ map (λ (sheet : String × List OrderResult). (sheet.0, export_rows sheet.1)) (sheets rows)
