-- ===== src/Command/Warmup/Tests.antt =====
-- The theorems about requests at a sample.
use sing_box_inbound_bench.Base.{◌≤◌, true, ◌≡◌}
use sing_box_inbound_bench.Base.Int.{pos_part}
use sing_box_inbound_bench.Workers.{per_worker_requests}
use sing_box_inbound_bench.Protocol.Config.Samples.{one_host, pps_config, pps_config_accepted}
use sing_box_inbound_bench.Command.Warmup.{warmup_workload, warmup_request, request_accepted}
use sing_box_inbound_bench.Command.Warmup.Accepted.{accepted-warmup_request}

accepted-warmup_request_example :
    (request_accepted one_host (warmup_request pps_config 3) ≡ true)
    × (1
        ≤ per_worker_requests
            (pos_part (warmup_workload pps_config.workload).requests)
            (pos_part (warmup_workload pps_config.workload).connections)
            7)
    × (1
        ≤ per_worker_requests
            (pos_part (warmup_workload pps_config.workload).requests)
            (pos_part (warmup_workload pps_config.workload).flows)
            7)
accepted-warmup_request_example =
    accepted-warmup_request one_host pps_config 3 7 pps_config_accepted
