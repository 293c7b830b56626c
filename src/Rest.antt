-- ===== src/Rest.antt =====
-- `RestCall` of pkg/gateway/util/rest.go.
pub mod Replies
use layer7_operator.Prelude.{
  ℕ, String, Bool, true, ◌&&◌, ◌||◌, not, List, [], Error, Result, value, failure, Outcome, ok, err,
  panic, if◌then◌else◌, from_result,
}
use layer7_operator.Prelude.Int.{nat_eq}
use layer7_operator.Prelude.Exec.{Exec, ◌>>=◌, lift, raise}

abbrev pub Bytes : Type 0
Bytes = List ℕ

-- A request of `http.NewRequest`, with the header and the user that are set on it.
pub record Request : Type 0 where
  pub method : String
  pub url : String
  pub body : Bytes
  pub content_type : String
  pub username : String
  pub password : String

-- What net/http and io do. The client does not verify certificates.
pub record Http : Type 1 where
  pub State : Type 0
  pub Body : Type 0
  -- the error of `http.NewRequest` for the method and the URL, if any
  pub check_request : String → String → Result (Unit {0})
  -- the status code, the status and the body
  pub send : Request → Exec State (ℕ × String × Body)
  pub read_all : Body → Exec State Bytes
  pub close : Body → State → State

abbrev pub is_success : ℕ → Bool
is_success code = nat_eq code 200 || nat_eq code 201

module _ (H : Http) where
  -- `defer` closes the body; `log.Fatalln` ends the process before it does.
  abbrev pub closed : H.Body → Outcome Bytes × H.State → Outcome Bytes × H.State
  closed body (ok bytes, s) = (ok bytes, H.close body s)
  closed body (err e, s) = (panic, s)
  closed body (panic, s) = (panic, s)

  unfoldable pub read_body : H.Body → Exec H.State Bytes
  read_body body s = closed body (H.read_all body s)

  unfoldable pub rest_call : String → String → String → Bytes → String → String → Exec H.State Bytes
  unfolding read_body
  rest_call method url content_type payload username password = do
    checked ← lift (from_result (H.check_request method url))
    (code, status, body) ← H.send (record {
      method = method;
      url = url;
      body = payload;
      content_type = content_type;
      username = username;
      password = password;
    })
    if is_success code then read_body body else raise (Error.other status)
