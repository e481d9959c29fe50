-- ===== src/Remote.antt =====
-- packages/domain/services/remote_charge_service.py: the read-only client of the admin site.
pub mod Session
pub mod Orders
pub mod Rules
pub mod ReadOnly
mod Tests
use raj_data_handle.Base.{
  ℕ, zero, suc, ◌+◌, ◌≤◌, String, Bool, true, false, not, ◌&&◌, ◌||◌, Option, none, some, List, [],
  ◌∷◌, ◌++◌, Result, ok, err, bind_result, Exception, type_error, value_error,
  remote_authentication_error, remote_response_error, remote_charge_error, out_of_fuel,
  is_remote_error, leb, ltb, eqb, ◌==◌, length, any_of, if◌then◌else◌,
}
use raj_data_handle.Base.Int.{ℤ, pos, eqb_ℤ, leb_ℤ, ltb_ℤ}
use raj_data_handle.Text.{is_empty, strip, lower_codes, drop}
use raj_data_handle.Value.{
  Value, null, bool, int, float, text, list, dict, number, Items, nil, item, Fields, end, field,
  get, put, truthy, str_of, stripped, int_of,
}
use Session.{
  Request, post_login, get_path, Response, http_error, response, Client, Site, Action, pure, raise,
  lift, ◌>>=◌, ◌>>◌, send,
}

abbrev pub charge_order_index_path : String
charge_order_index_path = "/api/operate/chargeOrder/index"

abbrev pub charge_channel_path : String
charge_channel_path = "/api/operate/chargeOrder/payChannel"

-- REMOTE_READ_PATHS
abbrev pub remote_read_paths : List String
remote_read_paths = charge_order_index_path ∷ charge_channel_path ∷ []

-- AUTH_FAILURE_STATUSES
abbrev auth_failure_statuses : List ℕ
auth_failure_statuses = 401 ∷ 403 ∷ 419 ∷ 440 ∷ []

starts_with_codes : List ℕ → List ℕ → Bool
starts_with_codes [] s = true
starts_with_codes (w ∷ word) [] = false
starts_with_codes (w ∷ word) (c ∷ s) = eqb w c && starts_with_codes word s

-- a token without its `Bearer `
bare_token : String → String
unfolding lower_codes starts_with_codes
bare_token token =
    if starts_with_codes (lower_codes "bearer ") (lower_codes token)
    then strip (drop 7 token)
    else token

-- `isinstance(value, str) and value.strip()`, as the token
token_text : Value → Option String
unfolding bare_token
token_text (text s) = if is_empty (strip s) then none else some (bare_token (strip s))
token_text _ = none

abbrev or_else : {A : Type 0} → Option A → Option A → Option A
or_else none b = b
or_else (some a) b = some a

-- the first token under one of the keys
token_at : List String → Fields → Option String
unfolding token_text
token_at [] fields = none
token_at (key ∷ keys) fields = or_else (token_text (get key fields)) (token_at keys fields)

-- an empty token counts as none
abbrev non_empty : Option String → Option String
non_empty none = none
non_empty (some s) = if is_empty s then none else some s

-- `_extract_token`
unfoldable mutual
  unfolding token_at

  pub extract_token : List String → Value → Option String
  extract_token keys (dict _ fields) = or_else (token_at keys fields) (token_in_fields keys fields)
  extract_token keys (list _ items) = token_in_items keys items
  extract_token keys _ = none

  pub token_in_fields : List String → Fields → Option String
  token_in_fields keys end = none
  token_in_fields keys (field _ v rest) =
      or_else (non_empty (extract_token keys v)) (token_in_fields keys rest)

  pub token_in_items : List String → Items → Option String
  token_in_items keys nil = none
  token_in_items keys (item v rest) =
      or_else (non_empty (extract_token keys v)) (token_in_items keys rest)

is_false : Value → Bool
is_false (bool false) = true
is_false _ = false

-- `value in (None, 0, 200, "200")`, where `False` and `0.0` equal 0
is_success_code : Value → Bool
is_success_code null = true
is_success_code (bool b) = not b
is_success_code (int n) = eqb_ℤ n (pos 0) || eqb_ℤ n (pos 200)
is_success_code (float _ (number n whole)) = whole && (eqb_ℤ n (pos 0) || eqb_ℤ n (pos 200))
is_success_code (text s) = s == "200"
is_success_code _ = false

-- `_response_data`
unfoldable pub response_data : Value → Result Value
unfolding is_false is_success_code
response_data (dict _ fields) =
    if is_false (get "success" fields)
    then err remote_response_error
    else if is_success_code (get "code" fields)
    then ok (get "data" fields)
    else err remote_response_error
response_data _ = err remote_response_error

pub record Channel : Type 0 where
  pub code : String
  pub label : String

module _ (site : Site) where
  -- the `isinstance(payload, dict) and payload.get("success") is False` of `login`
  rejected : Value → Bool
  unfolding is_false
  rejected (dict _ fields) = is_false (get "success" fields)
  rejected _ = false

  -- `self._token = token; return token`
  store_token : Option String → Action String
  store_token none c = raise remote_authentication_error c
  store_token (some token) c = (ok token, record c { token = some token })

  accept_login : Response → Action String
  accept_login http_error = raise remote_authentication_error
  accept_login (response status none) = raise remote_authentication_error
  accept_login (response status (some payload)) =
      if leb 400 status || rejected payload
      then raise remote_authentication_error
      else store_token (non_empty (extract_token site.token_keys payload))

  code_of : Option String → Action String
  code_of none = raise remote_authentication_error
  code_of (some code) = pure code

  log_in : Action String
  unfolding accept_login store_token rejected code_of
  log_in c =
      (do
        code ← code_of (site.generate_totp c.sent c.totp_secret)
        answer ← send site (post_login c.username c.password code)
        accept_login answer)
        c

  -- `if self._token and not force: return self._token`
  reuse_token : Option String → Action String
  unfolding log_in
  reuse_token none = log_in
  reuse_token (some token) = pure token

  -- `login`
  unfoldable pub login : (force : Bool) → Action String
  unfolding reuse_token
  login true c = log_in c
  login false c = reuse_token (non_empty c.token) c

  -- `response.json()`
  json_value : Option Value → Action Value
  json_value none = raise remote_response_error
  json_value (some value) = pure value

  -- what `_get_json` makes of a response; `again` is the call after another login
  accept_json : Action Value → Response → Action Value
  accept_json again http_error = raise remote_response_error
  accept_json again (response status json) =
      if any_of (eqb status) auth_failure_statuses
      then again
      else if leb 400 status
      then raise remote_response_error
      else json_value json

  -- `_get_json` with `again` in place of what an authentication failure leads to
  get_once : Action Value → String → Fields → Action Value
  unfolding accept_json json_value
  get_once again path params =
      if any_of (λ p. path == p) remote_read_paths
      then (do
        token ← login false
        answer ← send site (get_path path params token)
        accept_json again answer)
      else raise remote_charge_error

  -- after the second login an authentication failure is a status of 400 or more
  unfoldable pub get_json : String → Fields → Action Value
  unfolding get_once
  get_json path params =
      get_once (login true >> get_once (raise remote_response_error) path params) path params

  -- one entry of the channel dictionary
  channel_of : Value → Result Channel
  channel_of (dict _ fields) =
      let code = stripped (get "value" fields) in
      let label = stripped (get "label" fields) in
      if is_empty code || is_empty label
      then err remote_response_error
      else ok (record { code = code; label = label })
  channel_of _ = err remote_response_error

  channels_of : Items → Result (List Channel)
  unfolding channel_of
  channels_of nil = ok []
  channels_of (item v rest) =
      bind_result (channel_of v)
        λ channel. bind_result (channels_of rest) λ channels. ok (channel ∷ channels)

  channel_list : Value → Result (List Channel)
  unfolding channels_of
  channel_list (list _ items) = channels_of items
  channel_list _ = err remote_response_error

  unfoldable pub fetch_channels : Action (List Channel)
  unfolding channel_list
  fetch_channels = do
    payload ← get_json charge_channel_path end
    data' ← lift (response_data payload)
    lift (channel_list data')
