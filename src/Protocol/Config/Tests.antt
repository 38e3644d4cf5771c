-- ===== src/Protocol/Config/Tests.antt =====
-- Tests of the configuration, and the theorems about it at a sample.
use sing_box_inbound_bench.Base.{ℕ, ◌+◌, ◌*◌, ◌≤◌, ◌≡◌, refl, arith}
use sing_box_inbound_bench.Base.Int.{pos}
use sing_box_inbound_bench.Wire.{ok}
use sing_box_inbound_bench.Protocol.Config.Workload.{
  expected_packets, packets_of, scheduled_packets,
}
use sing_box_inbound_bench.Protocol.Config.Samples.{one_host, pps_config, pps_config_accepted}
use sing_box_inbound_bench.Protocol.Config.Accepted.{accepted-packet_fits}
use sing_box_inbound_bench.Protocol.Config.Schedule.{accepted-packet_count}
use sing_box_inbound_bench.Udp.{header_size}
use sing_box_inbound_bench.Udp.Schedule.{packet_count}

accepted-packet_fits_example :
    (p : ℕ) × (pps_config.workload.payload_bytes ≡ pos p) × (1 ≤ p) × (header_size + p ≤ 65507)
accepted-packet_fits_example = accepted-packet_fits one_host pps_config pps_config_accepted refl

accepted-packet_count_example :
    (packet_count 1000 0 (1500 * 1000000) ≡ ok (expected_packets pps_config.workload))
    × (1 ≤ 64)
    × (64 ≤ expected_packets pps_config.workload)
accepted-packet_count_example =
    accepted-packet_count one_host pps_config pps_config_accepted refl (omega arith)

expected_packets_sample : expected_packets pps_config.workload ≡ 1500
unfolding packets_of scheduled_packets
expected_packets_sample = refl
