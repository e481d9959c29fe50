-- ===== src/Remote/Session.antt =====
-- The state of `RajAdminChargeClient`, the requests that it sends, and actions that may raise.
-- The admin site and the HTTP library are not part of the repository: a `Site` answers each request
-- from all that has been sent before it, in whatever way, and the library may raise instead.
use raj_data_handle.Base.{
  ℕ, String, Option, List, [], ◌∷◌, ◌++◌, Result, ok, err, Exception, value_error, library_error,
}
use raj_data_handle.Value.{Value, Fields}

pub data Request : Type 0 where
  -- POST to LOGIN_PATH with username, password and code
  post_login : (username password code : String) → Request
  -- GET of a path with its query and the bearer token
  get_path : (path : String) (params : Fields) (token : String) → Request

pub data Response : Type 0 where
  -- `httpx.HTTPError`
  http_error : Response
  -- a status and the JSON body, `none` where it is not valid JSON
  response : (status_code : ℕ) (json : Option Value) → Response

-- what comes of a request: an answer or `httpx.HTTPError`, or another exception, which is a
-- `ValueError` if a text has no encoding (`UnicodeEncodeError`)
pub data Exchange : Type 0 where
  answered : Response → Exchange
  unencodable : Exchange
  broken : Exchange

pub record Client : Type 0 where
  pub username : String
  pub password : String
  pub totp_secret : String
  pub page_size : ℕ
  pub token : Option String
  pub sent : List Request

pub record Site : Type 0 where
  pub respond : List Request → Request → Exchange
  -- `generate_totp(secret)` at the time of the call; `none` is the `ValueError`
  pub generate_totp : List Request → String → Option String
  -- the order in which Python iterates over the set of token keys
  pub token_keys : List String

-- what was sent and stored before a raise stays
abbrev pub Action : Type 0 → Type 0
Action A = Client → Result A × Client

abbrev pub pure : {A : Type 0} → A → Action A
pure a c = (ok a, c)

abbrev pub raise : {A : Type 0} → Exception → Action A
raise e c = (err e, c)

abbrev pub lift : {A : Type 0} → Result A → Action A
lift r c = (r, c)

abbrev continue : {A B : Type 0} → Result A → (A → Action B) → Action B
continue (ok a) f c = f a c
continue (err e) f c = (err e, c)

infixl 5 ◌>>=◌ ◌>>◌
unfoldable pub ◌>>=◌ : {A B : Type 0} → Action A → (A → Action B) → Action B
◌>>=◌ m f c = let (r, c') = m c in continue r f c'

abbrev pub ◌>>◌ : {A B : Type 0} → Action A → Action B → Action B
m >> k = m >>= λ _. k

abbrev pub answer_of : Exchange → Result Response
answer_of (answered r) = ok r
answer_of unencodable = err value_error
answer_of broken = err library_error

-- a request that raises counts as sent
unfoldable pub send : Site → Request → Action Response
send site request c =
    (answer_of (site.respond c.sent request), record c { sent = c.sent ++ request ∷ [] })
