-- ===== src/Batch/Validation/Executable.antt =====
-- batch_service.py: what the parameters of a batch hold that `_validate_execution_parameters` passes.
use raj_data_handle.Base.{
  ◌≡◌, String, true, false, ok, ◌==◌, not, raise_if, arith, >>=-eq-ok, batch_validation_error,
}
use raj_data_handle.Text.{is_empty}
use raj_data_handle.Value.{
  Value, null, bool, int, float, text, list, dict, Items, nil, item, Fields, get, str_or_empty,
  stripped,
}
use raj_data_handle.Batch.{Batch}
use raj_data_handle.Batch.Validation.{
  is_text, channel_fits, all_fit, check_channels, check_template, check_detection,
  validate_execution_parameters,
}

-- entries with a code and a label
abbrev pub AreChannels : Items → Type 0
AreChannels nil = Unit
AreChannels (item (dict _ channel) rest) =
    (is_empty (stripped (get "code" channel)) ≡ false)
    × (is_empty (stripped (get "label" channel)) ≡ false)
    × AreChannels rest
AreChannels (item _ rest) = ⊥

-- a value that lists channels, one at least
abbrev pub ListsChannels : Value → Type 0
ListsChannels (list _ (item first rest)) = AreChannels (item first rest)
ListsChannels _ = ⊥

abbrev pub HasTemplate : Value → Type 0
HasTemplate (dict _ template) = Unit
HasTemplate _ = ⊥

abbrev pub IsDetection : Value → Type 0
IsDetection (dict _ detection) = HasTemplate (get "template" detection)
IsDetection _ = ⊥

all_fit-AreChannels : (key : String) (items : Items) → all_fit key items ≡ true → AreChannels items
unfolding all_fit channel_fits
all_fit-AreChannels key nil h = tt
all_fit-AreChannels key (item (dict s channel) rest) h =
    (ground arith, ground arith, all_fit-AreChannels key rest (ground arith))
all_fit-AreChannels key (item null rest) h = cc
all_fit-AreChannels key (item (bool b) rest) h = cc
all_fit-AreChannels key (item (int n) rest) h = cc
all_fit-AreChannels key (item (float s n) rest) h = cc
all_fit-AreChannels key (item (text s) rest) h = cc
all_fit-AreChannels key (item (list s v) rest) h = cc

check-ListsChannels : (key : String) (v : Value) → check_channels key v ≡ ok tt → ListsChannels v
unfolding check_channels
check-ListsChannels key (list s (item first rest)) h =
    all_fit-AreChannels key (item first rest) (ground arith)
check-ListsChannels key (list s nil) h = cc
check-ListsChannels key (dict s v) h = cc
check-ListsChannels key null h = cc
check-ListsChannels key (bool b) h = cc
check-ListsChannels key (int n) h = cc
check-ListsChannels key (float s n) h = cc
check-ListsChannels key (text s) h = cc

HasTemplate-passed :
    (p : Fields) (v : Value)
    → check_template p v ≡ ok tt
    → HasTemplate v × ListsChannels (get "selectedChannels" p)
unfolding check_template
HasTemplate-passed p (dict s template) h =
    let (_, _, passed) =
      >>=-eq-ok
        (raise_if (not (is_text "payin" (get "businessType" template))) batch_validation_error) _
        h in
    (
      tt,
      check-ListsChannels (str_or_empty (get "platformKey" template)) (get "selectedChannels" p)
          passed,
    )
HasTemplate-passed p (list s v) h = cc
HasTemplate-passed p null h = cc
HasTemplate-passed p (bool b) h = cc
HasTemplate-passed p (int n) h = cc
HasTemplate-passed p (float s n) h = cc
HasTemplate-passed p (text s) h = cc

IsDetection-passed :
    (p : Fields) (v : Value)
    → check_detection p v ≡ ok tt
    → IsDetection v × ListsChannels (get "selectedChannels" p)
unfolding check_detection
IsDetection-passed p (dict s detection) h =
    let (_, _, passed) =
      >>=-eq-ok (raise_if (not (is_text "matched" (get "status" detection))) batch_validation_error)
        _ h in
    HasTemplate-passed p (get "template" detection) passed
IsDetection-passed p (list s v) h = cc
IsDetection-passed p null h = cc
IsDetection-passed p (bool b) h = cc
IsDetection-passed p (int n) h = cc
IsDetection-passed p (float s n) h = cc
IsDetection-passed p (text s) h = cc

pub validated-IsDetection :
    (b : Batch)
    → validate_execution_parameters b ≡ ok tt
    → IsDetection (get "templateDetection" b.parameters_json)
      × ListsChannels (get "selectedChannels" b.parameters_json)
unfolding validate_execution_parameters
validated-IsDetection b h =
    let (_, _, detected) =
      >>=-eq-ok (raise_if (not (b.business_type == "payin")) batch_validation_error) _ h in
    let (_, passed, _) =
      >>=-eq-ok (check_detection b.parameters_json (get "templateDetection" b.parameters_json)) _
        detected in
    IsDetection-passed b.parameters_json (get "templateDetection" b.parameters_json) passed
