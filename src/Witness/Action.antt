-- ===== src/Witness/Action.antt =====
-- crates/rvm-types/src/witness.rs: `ActionKind` with its numbers.
use rvm.Prelude.{ℕ}

-- `enum ActionKind`.
pub data ActionKind : Type 0 where
  partition_create partition_destroy partition_suspend partition_resume : ActionKind
  partition_split partition_merge partition_hibernate partition_reconstruct : ActionKind
  partition_migrate capability_grant capability_revoke capability_delegate : ActionKind
  capability_escalate capability_attenuated region_create region_destroy : ActionKind
  region_transfer region_share region_unshare region_promote : ActionKind
  region_demote region_map region_unmap comm_edge_create : ActionKind
  comm_edge_destroy ipc_send ipc_receive zero_copy_share : ActionKind
  notification_signal device_lease_grant device_lease_revoke device_lease_expire : ActionKind
  device_lease_renew proof_verified_p1 proof_verified_p2 proof_verified_p3 : ActionKind
  proof_rejected proof_escalated scheduler_epoch scheduler_mode_switch : ActionKind
  task_spawn task_terminate structural_split structural_merge : ActionKind
  recovery_enter recovery_exit checkpoint_created checkpoint_restored : ActionKind
  min_cut_budget_exceeded degraded_mode_entered degraded_mode_exited boot_attestation : ActionKind
  boot_complete tee_attestation vector_put vector_delete : ActionKind
  graph_mutation coherence_recomputed vmid_reclaim migration_timeout : ActionKind
  anchor_external_receipt context_resolve context_read context_search : ActionKind
  context_put context_alias_update context_forget context_execute : ActionKind
  context_epoch_seal : ActionKind

-- `action as u8`.
abbrev pub action_number : ActionKind → ℕ
action_number partition_create = 0x01
action_number partition_destroy = 0x02
action_number partition_suspend = 0x03
action_number partition_resume = 0x04
action_number partition_split = 0x05
action_number partition_merge = 0x06
action_number partition_hibernate = 0x07
action_number partition_reconstruct = 0x08
action_number partition_migrate = 0x09
action_number capability_grant = 0x10
action_number capability_revoke = 0x11
action_number capability_delegate = 0x12
action_number capability_escalate = 0x13
action_number capability_attenuated = 0x14
action_number region_create = 0x20
action_number region_destroy = 0x21
action_number region_transfer = 0x22
action_number region_share = 0x23
action_number region_unshare = 0x24
action_number region_promote = 0x25
action_number region_demote = 0x26
action_number region_map = 0x27
action_number region_unmap = 0x28
action_number comm_edge_create = 0x30
action_number comm_edge_destroy = 0x31
action_number ipc_send = 0x32
action_number ipc_receive = 0x33
action_number zero_copy_share = 0x34
action_number notification_signal = 0x35
action_number device_lease_grant = 0x40
action_number device_lease_revoke = 0x41
action_number device_lease_expire = 0x42
action_number device_lease_renew = 0x43
action_number proof_verified_p1 = 0x50
action_number proof_verified_p2 = 0x51
action_number proof_verified_p3 = 0x52
action_number proof_rejected = 0x53
action_number proof_escalated = 0x54
action_number scheduler_epoch = 0x60
action_number scheduler_mode_switch = 0x61
action_number task_spawn = 0x62
action_number task_terminate = 0x63
action_number structural_split = 0x64
action_number structural_merge = 0x65
action_number recovery_enter = 0x70
action_number recovery_exit = 0x71
action_number checkpoint_created = 0x72
action_number checkpoint_restored = 0x73
action_number min_cut_budget_exceeded = 0x74
action_number degraded_mode_entered = 0x75
action_number degraded_mode_exited = 0x76
action_number boot_attestation = 0x80
action_number boot_complete = 0x81
action_number tee_attestation = 0x82
action_number vector_put = 0x90
action_number vector_delete = 0x91
action_number graph_mutation = 0x92
action_number coherence_recomputed = 0x93
action_number vmid_reclaim = 0xA0
action_number migration_timeout = 0xA1
action_number anchor_external_receipt = 0xB0
action_number context_resolve = 0xC0
action_number context_read = 0xC1
action_number context_search = 0xC2
action_number context_put = 0xC3
action_number context_alias_update = 0xC4
action_number context_forget = 0xC5
action_number context_execute = 0xC6
action_number context_epoch_seal = 0xC7
