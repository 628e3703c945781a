-- ===== src/Config/Keys.antt =====
-- The keys of config/config.go and the defaults of NewMap.
use myflowhub_core.Common.{Text, codes, List, [], ◌∷◌, ◌++◌}
use myflowhub_core.Config.{MapConfig, put_all, ensure_all}
use myflowhub_core.Permission.{
  key_auth_default_role, key_auth_default_perms, key_auth_node_roles, key_auth_role_perms,
}
use myflowhub_core.Workers.{
  key_proc_channel_count, key_proc_workers_per_chan, key_proc_channel_buffer,
  key_proc_queue_strategy,
}

abbrev pub key_auth_register_require_approval : Text
key_auth_register_require_approval = codes "auth.register.require_approval"

abbrev pub key_auth_register_pending_ttl_sec : Text
key_auth_register_pending_ttl_sec = codes "auth.register.pending_ttl_sec"

abbrev pub key_auth_register_permit_ttl_sec : Text
key_auth_register_permit_ttl_sec = codes "auth.register.permit_ttl_sec"

abbrev pub key_auth_bootstrap_first_register_enable : Text
key_auth_bootstrap_first_register_enable = codes "auth.bootstrap.first_register.enabled"

abbrev pub key_auth_bootstrap_first_register_role : Text
key_auth_bootstrap_first_register_role = codes "auth.bootstrap.first_register.role"

abbrev pub key_auth_bootstrap_first_register_device_id : Text
key_auth_bootstrap_first_register_device_id = codes "auth.bootstrap.first_register.device_id"

abbrev pub key_auth_bootstrap_first_register_pub_key : Text
key_auth_bootstrap_first_register_pub_key = codes "auth.bootstrap.first_register.pubkey"

abbrev pub key_auth_bootstrap_first_register_epoch : Text
key_auth_bootstrap_first_register_epoch = codes "auth.bootstrap.first_register.epoch"

abbrev pub key_send_channel_count : Text
key_send_channel_count = codes "send.channel_count"

abbrev pub key_send_workers_per_chan : Text
key_send_workers_per_chan = codes "send.workers_per_channel"

abbrev pub key_send_channel_buffer : Text
key_send_channel_buffer = codes "send.channel_buffer"

abbrev pub key_send_conn_buffer : Text
key_send_conn_buffer = codes "send.conn_buffer"

abbrev pub key_send_enqueue_timeout_ms : Text
key_send_enqueue_timeout_ms = codes "send.enqueue_timeout_ms"

abbrev pub key_routing_forward_remote : Text
key_routing_forward_remote = codes "routing.forward_remote"

abbrev pub key_default_forward_enable : Text
key_default_forward_enable = codes "routing.default_forward_enable"

abbrev pub key_default_forward_target : Text
key_default_forward_target = codes "routing.default_forward_target"

abbrev pub key_default_forward_map : Text
key_default_forward_map = codes "routing.default_forward_map"

abbrev pub key_parent_enable : Text
key_parent_enable = codes "parent.enable"

abbrev pub key_parent_addr : Text
key_parent_addr = codes "parent.addr"

abbrev pub key_parent_join_permit : Text
key_parent_join_permit = codes "parent.join_permit"

abbrev pub key_parent_reconnect_sec : Text
key_parent_reconnect_sec = codes "parent.reconnect_sec"

abbrev pub key_auth_node_priv_key : Text
key_auth_node_priv_key = codes "auth.node_privkey"

abbrev pub key_auth_node_pub_key : Text
key_auth_node_pub_key = codes "auth.node_pubkey"

abbrev pub key_auth_trusted_nodes : Text
key_auth_trusted_nodes = codes "auth.trusted_nodes"

abbrev pub default_auth_role_perms : Text
default_auth_role_perms =
    codes "superadmin:*;admin:file.read,file.write,flow.set,flow.delete,flow.run,"
    ++ (codes "flow.read,exec.call,exec.cap.query,exec.cap.sync,var.private_set,var.r"
        ++ (codes "evoke,var.subscribe,auth.revoke,auth.pending.list,auth.register.approv"
            ++ (codes "e,auth.register.reject,auth.permit.issue,auth.permit.revoke;node:file."
                ++ (codes "read,file.write,flow.set,flow.run,flow.read,exec.call,exec.cap.query,e"
                    ++ (codes "xec.cap.sync")))))

abbrev pub default_auth_bootstrap_first_register_role : Text
default_auth_bootstrap_first_register_role = codes "superadmin"

abbrev pub defaults : List (Text × Text)
defaults =
    (key_proc_channel_count, codes "1")
    ∷ (key_proc_workers_per_chan, codes "1")
    ∷ (key_proc_channel_buffer, codes "64")
    ∷ (key_auth_default_role, codes "node")
    ∷ (key_auth_default_perms, codes "")
    ∷ (key_auth_node_roles, codes "")
    ∷ (key_auth_role_perms, default_auth_role_perms)
    ∷ (key_auth_register_require_approval, codes "false")
    ∷ (key_auth_register_pending_ttl_sec, codes "86400")
    ∷ (key_auth_register_permit_ttl_sec, codes "3600")
    ∷ (key_auth_bootstrap_first_register_enable, codes "false")
    ∷ (key_auth_bootstrap_first_register_role, default_auth_bootstrap_first_register_role)
    ∷ (key_auth_bootstrap_first_register_device_id, codes "")
    ∷ (key_auth_bootstrap_first_register_pub_key, codes "")
    ∷ (key_auth_bootstrap_first_register_epoch, codes "0")
    ∷ (key_send_channel_count, codes "1")
    ∷ (key_send_workers_per_chan, codes "1")
    ∷ (key_send_channel_buffer, codes "64")
    ∷ (key_send_conn_buffer, codes "64")
    ∷ (key_send_enqueue_timeout_ms, codes "100")
    ∷ (key_routing_forward_remote, codes "true")
    ∷ (key_proc_queue_strategy, codes "conn")
    ∷ (key_default_forward_enable, codes "")
    ∷ (key_default_forward_target, codes "")
    ∷ (key_default_forward_map, codes "")
    ∷ (key_parent_enable, codes "false")
    ∷ (key_parent_addr, codes "")
    ∷ (key_parent_join_permit, codes "")
    ∷ (key_parent_reconnect_sec, codes "3")
    ∷ []

-- NewMap.
unfoldable pub new_map : List (Text × Text) → MapConfig
unfolding put_all ensure_all
new_map data' = ensure_all defaults (put_all data' [])
