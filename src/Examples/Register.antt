-- ===== src/Examples/Register.antt =====
-- A parent that grants the node ID 9 and accepts the login.
use myflowhub_core.Common.{◌≡◌, ◌≢◌, ◌↔◌, ◌⊎◌, refl, [], some, true, false, codes, is_empty, ok}
use myflowhub_core.Conn.{pos}
use myflowhub_core.Strings.{trim_space, to_lower}
use myflowhub_core.Register.{
  Response, SelfRegisterOptions, Peer, judge, judge_login, exchange, parse_register_resp,
  assert_login_ok, login, register, self_register,
}
use myflowhub_core.Register.Outcomes.{judge_iff, self_register_ok, Granted, LoggedIn}

abbrev granted : Response
granted = record {
  code = pos 1;
  node_id = 9;
  msg = [];
  status = codes " Approved";
  request_id = [];
  reason = [];
}

judge_iff_example : (judge granted ≡ ok 9) ↔ (
    (granted.code ≡ pos 1)
    × (granted.node_id ≢ 0)
    × (9 ≡ granted.node_id)
    × (to_lower (trim_space granted.status) ≢ codes "pending")
    × (to_lower (trim_space granted.status) ≢ codes "rejected"))
judge_iff_example = judge_iff granted 9

abbrev parent : Peer
parent = record {
  dial = some true;
  request_body = λ id p. id;
  login_body = λ id. id;
  send = λ h body. true;
  recv = λ h. some (codes "{}");
  decode_response = λ body. some granted;
  decode_login = λ body. some (pos 1, []);
}

abbrev options : SelfRegisterOptions
options = record {
  parent_addr = codes "10.0.0.1:9000";
  has_dial = false;
  self_id = codes "edge";
  join_permit = [];
  do_login = true;
}

registered : self_register parent options ≡ ok 9
unfolding self_register register exchange parse_register_resp judge login assert_login_ok
    judge_login to_lower trim_space
registered = refl

self_register_ok_example : (self_register parent options ≡ ok 9) ↔ (
    ((options.has_dial ≡ true) ⊎ (is_empty options.parent_addr ≡ false))
    × (is_empty options.self_id ≡ false)
    × (parent.dial ≡ some true)
    × Granted parent options 9
    × (options.do_login ≡ true → LoggedIn parent options.self_id 9))
self_register_ok_example = self_register_ok parent options 9
