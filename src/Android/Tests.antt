-- ===== src/Android/Tests.antt =====
-- Tests of the checks of a device, and the theorems about them at a sample.
use sing_box_inbound_bench.Base.{[], ◌∷◌, String, All, true, false, some, ◌≡◌, refl}
use sing_box_inbound_bench.Text.{bytes, utf8, contains, has_prefix, is_blank, is_space}
use sing_box_inbound_bench.Protocol.Config.{Config}
use sing_box_inbound_bench.Protocol.Config.Samples.{one_host, pps_config}
use sing_box_inbound_bench.Protocol.Matrix.{MatrixConfig}
use sing_box_inbound_bench.Protocol.Matrix.Samples.{one_case}
use sing_box_inbound_bench.Netfilter
use sing_box_inbound_bench.Netfilter.{AddrPort, ip4, redirect, chains, make_manager}
use sing_box_inbound_bench.Android.{
  Commands, SnapshotOwnership, find_command, appeared, changed_in, verify_snapshot, service_state,
  snapshot_ownership,
}
use sing_box_inbound_bench.Android.Owned.{InBoth, snapshot_ownership-chains}

abbrev shown : String → Commands
shown text = ("iptables", record { arguments = []; output = bytes text; error = "" }) ∷ []

abbrev own_chain : SnapshotOwnership
own_chain = ("iptables", "SBI_R_0A" ∷ []) ∷ []

chain_remains :
    verify_snapshot (shown "-N X") (shown "-N SBI_R_0A") own_chain ≡ "iptables:SBI_R_0A" ∷ []
unfolding verify_snapshot changed_in appeared find_command contains has_prefix bytes utf8
chain_remains = refl

-- A status that is printed with exit code 1 is that of a service that is stopped.
service_stopped : service_state (bytes "stopped") (some (some 1)) (bytes "running") ≡ (false, true)
unfolding service_state contains has_prefix is_blank is_space bytes utf8
service_stopped = refl

abbrev redirect_config : Config
redirect_config = record pps_config { subject = record pps_config.subject { kind = "redirect" } }

abbrev redirect_case : MatrixConfig
redirect_case = record one_case { cases = redirect_config ∷ [] }

abbrev address : AddrPort
address = record { addr = ip4 "10.0.0.1"; port = 9000 }

abbrev manager_config : Netfilter.Config
manager_config = record {
  kind = redirect;
  run_id = bytes "pps.1";
  target = address;
  listen = address;
  worker_uid = 1000;
  protocol = "tcp";
  firewall_binary = "";
  ip_binary = "";
  mark = 0;
  route_table = 0;
  rule_priority = 0;
}

snapshot_ownership-chains_example :
    All (InBoth (snapshot_ownership one_host redirect_case)) (chains (make_manager manager_config))
snapshot_ownership-chains_example =
    snapshot_ownership-chains one_host redirect_case [] redirect_config [] manager_config refl refl
      refl refl
