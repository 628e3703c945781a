-- ===== src/Register.antt =====
-- bootstrap/selfregister.go: what a node makes of the answers to its registration. The decoders of
-- encoding/json are arguments; `none` is their error.
pub mod Outcomes
use myflowhub_core.Common.{
  ℕ, List, [], ◌∷◌, ◌++◌, Option, none, some, Bool, true, false, not, ◌&&◌, ◌||◌, Text, codes,
  text_eq, is_empty, Result, ok, err, ◌>>=◌, ◌==◌, if◌then◌else◌,
}
use myflowhub_core.Header.{HeaderTcp, zero_header, major_cmd, with_major, with_sub_proto}
use myflowhub_core.Conn.{ℤ, pos, negsuc}
use myflowhub_core.Strings.{trim_space, to_lower}

-- The fields of a response, after json.Unmarshal.
pub record Response : Type 0 where
  pub code : ℤ
  pub node_id : ℕ
  pub msg : Text
  pub status : Text
  pub request_id : Text
  pub reason : Text

-- RegisterStatusError.
pub record StatusError : Type 0 where
  pub err_code : ℤ
  pub err_status : Text
  pub err_request_id : Text
  pub err_reason : Text
  pub err_msg : Text

pub data RegisterError : Type 0 where
  json_error parent_address_required self_id_required dial_error nil_connection send_error
        recv_error :
      RegisterError
  status_error : StatusError → RegisterError
  login_failed : Text → RegisterError

-- coalesceRegisterReason.
unfoldable pub coalesce : List Text → Text
coalesce [] = []
coalesce (v ∷ vs) = let rest = coalesce vs in if is_empty (trim_space v) then rest else trim_space v

abbrev pub is_one : ℤ → Bool
is_one (pos n) = n == 1
is_one (negsuc n) = false

abbrev pub status_error_of : Response → Text → StatusError
status_error_of r reason = record {
  err_code = r.code;
  err_status = r.status;
  err_request_id = r.request_id;
  err_reason = reason;
  err_msg = r.msg;
}

-- The switch of parseRegisterResp.
unfoldable pub judge : Response → Result RegisterError ℕ
unfolding coalesce
judge r =
    let status = to_lower (trim_space r.status) in
    let granted = is_one r.code && not (r.node_id == 0) in
    if text_eq status (codes "approved")
    then (if granted
        then ok r.node_id
        else err (
            status_error (
              status_error_of r
                (coalesce (r.reason ∷ r.msg ∷ codes "register approved without node_id" ∷ [])))))
    else if text_eq status (codes "pending") || text_eq status (codes "rejected")
    then err (status_error (status_error_of r r.reason))
    else if granted
    then ok r.node_id
    else err (status_error (status_error_of r r.reason))

-- RegisterStatusError.Error, of an error that is not nil.
unfoldable pub error_text : StatusError → Text
error_text e =
    let reason = trim_space e.err_reason in
    let detail0 = if is_empty reason then trim_space e.err_msg else reason in
    let detail = if is_empty detail0 then codes "register failed" else detail0 in
    let status = trim_space e.err_status in
    if is_empty status
    then codes "register failed: " ++ detail
    else if not (is_empty e.err_request_id)
    then codes "register "
      ++ (status ++ (codes " (request_id=" ++ (e.err_request_id ++ (codes "): " ++ detail))))
    else codes "register " ++ (status ++ (codes ": " ++ detail))

-- The end of assertLoginOK.
unfoldable pub judge_login : ℤ → Text → Result RegisterError ℕ
judge_login code msg =
    if is_one code then ok 0 else err (login_failed (codes "login failed: " ++ msg))

-- The header of the register request, and of the login request of a node.
unfoldable pub register_header : HeaderTcp
register_header = record (with_sub_proto 2 (with_major major_cmd zero_header)) {
  source = 0;
  target = 0;
  msg_id = 1;
}

unfoldable pub login_header : ℕ → HeaderTcp
login_header node_id = record (with_sub_proto 2 (with_major major_cmd zero_header)) {
  source = node_id;
  target = 0;
  msg_id = 2;
}

pub record SelfRegisterOptions : Type 0 where
  pub parent_addr : Text
  pub has_dial : Bool
  pub self_id : Text
  pub join_permit : Text
  pub do_login : Bool

-- The connection to the parent and the JSON library, as far as SelfRegister uses them: whether the
-- dial gave an error, nil or a connection, and what sending and then receiving gives.
pub record Peer : Type 0 where
  pub dial : Option Bool
  pub request_body : Text → Option Text → Text
  pub login_body : Text → Text
  pub send : HeaderTcp → Text → Bool
  pub recv : HeaderTcp → Option Text
  pub decode_response : Text → Option Response
  pub decode_login : Text → Option (ℤ × Text)

module _ (p : Peer) where
  -- sendFrame, then recvFrame.
  unfoldable pub exchange : HeaderTcp → Text → Result RegisterError Text
  exchange h body =
      if p.send h body
      then elim (p.recv h) [ none ↦ err recv_error | some answer ↦ ok answer ]
      else err send_error

  -- parseRegisterResp and assertLoginOK.
  unfoldable pub parse_register_resp : Text → Result RegisterError ℕ
  unfolding judge
  parse_register_resp body = elim (p.decode_response body) [
    | none ↦ err json_error
    | some r ↦ judge r
  ]

  unfoldable pub assert_login_ok : Text → Result RegisterError ℕ
  unfolding judge_login
  assert_login_ok body = elim (p.decode_login body) [
    | none ↦ err json_error
    | some (code, msg) ↦ judge_login code msg
  ]

  abbrev permit : Text → Option Text
  permit s = if is_empty (trim_space s) then none else some (trim_space s)

  -- The login of SelfRegister.
  unfoldable pub login : Text → ℕ → Result RegisterError ℕ
  unfolding exchange assert_login_ok
  login self_id node_id = do
    answer ← exchange (login_header node_id) (p.login_body self_id)
    done ← assert_login_ok answer
    ok node_id

  -- SelfRegister after the dial.
  unfoldable pub register : SelfRegisterOptions → Result RegisterError ℕ
  unfolding exchange parse_register_resp login
  register o = do
    answer ← exchange register_header (p.request_body o.self_id (permit o.join_permit))
    node_id ← parse_register_resp answer
    if o.do_login then login o.self_id node_id else ok node_id

  -- SelfRegister: the node ID. The credential that it returns is always empty.
  unfoldable pub self_register : SelfRegisterOptions → Result RegisterError ℕ
  unfolding register
  self_register o =
      if not o.has_dial && is_empty o.parent_addr
      then err parent_address_required
      else if is_empty o.self_id
      then err self_id_required
      else elim p.dial [
        | none ↦ err dial_error
        | some has_conn ↦ if has_conn then register o else err nil_connection
      ]
