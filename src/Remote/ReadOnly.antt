-- ===== src/Remote/ReadOnly.antt =====
-- remote_charge_service.py: what every operation of the client may send and may raise.
use raj_data_handle.Base.{
  ◌≡◌, refl, ◌⊎◌, inl, String, Bool, true, false, Option, none, some, ◌∷◌, [], Exception,
  remote_authentication_error, remote_response_error, remote_charge_error, overflow_error,
  value_error, library_error, arith, err, is_remote_error, any_of, ◌==◌, All, All-append,
}
use raj_data_handle.Value.{Value, Fields}
use raj_data_handle.Remote.{
  remote_read_paths, store_token, accept_login, code_of, log_in, reuse_token, login, json_value,
  accept_json, get_once, get_json, non_empty,
}
use raj_data_handle.Remote.Session.{
  Client, Site, Request, post_login, get_path, Response, Exchange, answered, unencodable, broken,
  answer_of, http_error, response, Action, send,
}
use raj_data_handle.Remote.Rules.{
  Runs, Runs-pure, Runs-raise, Runs-lift, Runs-if, Runs-bind, Runs-read,
}

-- a login, or the reading of one of the two allowed paths
abbrev pub IsReadOnly : Request → Type 0
IsReadOnly (post_login _ _ _) = Unit
IsReadOnly (get_path path _ _) = any_of (λ p. path == p) remote_read_paths ≡ true

abbrev pub HasOnlyRead : Client → Type 0
HasOnlyRead c = All IsReadOnly c.sent

-- what no handler of the client names: the `OverflowError` of an infinite page number, the
-- `ValueError` of a text without an encoding, and others of the libraries
abbrev pub IsUnexpected : Exception → Type 0
IsUnexpected e = (e ≡ overflow_error) ⊎ (e ≡ value_error) ⊎ (e ≡ library_error)

-- the exceptions of the client, and those
abbrev pub IsClientError : Exception → Type 0
IsClientError e = (is_remote_error e ≡ true) ⊎ IsUnexpected e

answer_of-raises : (x : Exchange) (e : Exception) → answer_of x ≡ err e → IsClientError e
answer_of-raises (answered r) e h = cc
answer_of-raises unencodable e h = ground arith
answer_of-raises broken e h = ground arith

pub authentication_allowed : IsClientError remote_authentication_error
authentication_allowed = inl refl

pub response_allowed : IsClientError remote_response_error
response_allowed = inl refl

pub charge_allowed : IsClientError remote_charge_error
charge_allowed = inl refl

pub ruleset client_rules = (
  Runs-pure, Runs-raise, Runs-if, Runs-bind, authentication_allowed, response_allowed,
  charge_allowed,
)

module _ (site : Site) where
  send-Runs :
      (request : Request) → IsReadOnly request → Runs HasOnlyRead IsClientError (send site request)
  unfolding send
  send-Runs request allowed = record {
    keeps = λ c h. All-append IsReadOnly c.sent (request ∷ []) h (allowed, tt);
    raises = λ c e h. answer_of-raises (site.respond c.sent request) e h;
  }

  store_token-Runs : (t : Option String) → Runs HasOnlyRead IsClientError (store_token site t)
  unfolding store_token
  store_token-Runs none = search client_rules
  store_token-Runs (some t) = record { keeps = λ c h. h; raises = λ c e h. cc }

  accept_login-Runs : (r : Response) → Runs HasOnlyRead IsClientError (accept_login site r)
  unfolding accept_login
  accept_login-Runs http_error = search client_rules
  accept_login-Runs (response status none) = search client_rules
  accept_login-Runs (response status (some payload)) = search (client_rules, store_token-Runs)

  code_of-Runs : (o : Option String) → Runs HasOnlyRead IsClientError (code_of site o)
  unfolding code_of
  code_of-Runs none = search client_rules
  code_of-Runs (some code) = search client_rules

  log_in-Runs : Runs HasOnlyRead IsClientError (log_in site)
  unfolding log_in
  log_in-Runs = Runs-read _ λ c.
      Runs-bind _ _ (code_of-Runs _)
        λ code. Runs-bind _ _ (send-Runs _ tt) λ answer. accept_login-Runs answer

  reuse_token-Runs : (t : Option String) → Runs HasOnlyRead IsClientError (reuse_token site t)
  unfolding reuse_token
  reuse_token-Runs none = log_in-Runs
  reuse_token-Runs (some t) = Runs-pure t

  login-Runs : (force : Bool) → Runs HasOnlyRead IsClientError (login site force)
  unfolding login
  login-Runs true = record { keeps = log_in-Runs.keeps; raises = log_in-Runs.raises }
  login-Runs false = Runs-read _ λ c. reuse_token-Runs (non_empty c.token)

  json_value-Runs : (json : Option Value) → Runs HasOnlyRead IsClientError (json_value site json)
  unfolding json_value
  json_value-Runs none = search client_rules
  json_value-Runs (some value) = Runs-pure value

  accept_json-Runs :
      (again : Action Value) (r : Response)
      → Runs HasOnlyRead IsClientError again
      → Runs HasOnlyRead IsClientError (accept_json site again r)
  unfolding accept_json
  accept_json-Runs again http_error h = search client_rules
  accept_json-Runs again (response status json) h = search (client_rules, json_value-Runs)

  get_once-Runs :
      (again : Action Value) (path : String) (params : Fields)
      → Runs HasOnlyRead IsClientError again
      → Runs HasOnlyRead IsClientError (get_once site again path params)
  unfolding get_once
  get_once-Runs again path params h = search (client_rules, login-Runs, send-Runs, accept_json-Runs)

  -- A GET of any path sends nothing but logins and reads of the two allowed paths, and raises only
  -- the client's own exceptions or an unexpected one.
  pub get_json-Runs :
      (path : String) (params : Fields) → Runs HasOnlyRead IsClientError (get_json site path params)
  unfolding get_json
  get_json-Runs path params = get_once-Runs _ path params (
      Runs-bind _ _ (login-Runs true)
        λ _. get_once-Runs _ path params (Runs-raise _ response_allowed))
