-- ===== src/Batch/Validation.antt =====
-- packages/domain/services/batch_service.py: `_validate_execution_parameters`.
pub mod Executable
use raj_data_handle.Base.{
  String, Bool, true, false, not, ◌&&◌, ◌||◌, List, [], ◌∷◌, Result, err, raise_if, ◌>>◌,
  type_error, batch_validation_error, any_of, ◌==◌,
}
use raj_data_handle.Text.{is_empty, upper_codes, codes, same_codes}
use raj_data_handle.Value.{
  Value, text, list, dict, Items, nil, item, Fields, get, truthy, str_or_empty, stripped,
}
use raj_data_handle.Batch.{Batch}

-- `value == "…"`
abbrev is_text : String → Value → Bool
is_text s (text t) = t == s
is_text s _ = false

abbrev is_hashable : Value → Bool
is_hashable (list _ _) = false
is_hashable (dict _ _) = false
is_hashable _ = true

-- one entry of `selectedChannels`
channel_fits : String → Value → Bool
channel_fits platform_key (dict _ channel) =
    not (is_empty (stripped (get "code" channel)))
    && not (is_empty (stripped (get "label" channel)))
    && is_text platform_key (get "platformKey" channel)
channel_fits platform_key _ = false

all_fit : String → Items → Bool
unfolding channel_fits
all_fit platform_key nil = true
all_fit platform_key (item channel rest) =
    channel_fits platform_key channel && all_fit platform_key rest

-- `not isinstance(channels, list) or not channels`, and the loop over the channels
check_channels : String → Value → Result (Unit {0})
unfolding all_fit
check_channels platform_key (list _ (item channel rest)) =
    raise_if (not (all_fit platform_key (item channel rest))) batch_validation_error
check_channels platform_key _ = err batch_validation_error

-- `required_window_fields`
abbrev required_window_fields : List String
required_window_fields =
    "start" ∷ "end" ∷ "paymentTimeField" ∷ "paymentTimezone" ∷ "remoteTimeField"
    ∷ "remoteBusinessTimezone" ∷ []

-- an unhashable value has no place in a set
check_window : Value → Result (Unit {0})
check_window (dict _ window) = do
  raise_if (any_of (λ key. not (truthy (get key window))) required_window_fields)
      batch_validation_error
  raise_if (not (is_hashable (get "remoteTimeField" window))) type_error
  raise_if
      (not (
        is_text "create_time" (get "remoteTimeField" window)
        || is_text "pay_time" (get "remoteTimeField" window)))
      batch_validation_error
check_window _ = err batch_validation_error

check_template : Fields → Value → Result (Unit {0})
unfolding check_channels
check_template parameters (dict _ template) = do
  raise_if (not (is_text "payin" (get "businessType" template))) batch_validation_error
  check_channels (str_or_empty (get "platformKey" template)) (get "selectedChannels" parameters)
check_template parameters _ = err batch_validation_error

check_detection : Fields → Value → Result (Unit {0})
unfolding check_template
check_detection parameters (dict _ detection) = do
  raise_if (not (is_text "matched" (get "status" detection))) batch_validation_error
  check_template parameters (get "template" detection)
check_detection parameters _ = err batch_validation_error

-- `_validate_execution_parameters`
unfoldable pub validate_execution_parameters : Batch → Result (Unit {0})
unfolding check_detection check_window
validate_execution_parameters b = do
  raise_if (not (b.business_type == "payin")) batch_validation_error
  check_detection b.parameters_json (get "templateDetection" b.parameters_json)
  check_window (get "comparisonWindow" b.parameters_json)
  raise_if
      (not (
        same_codes (upper_codes (str_or_empty (get "currency" b.parameters_json)))
          (codes b.source_currency)))
      batch_validation_error
