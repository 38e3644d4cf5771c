-- ===== src/Protocol/Matrix/Tests.antt =====
-- The theorems about matrices at a sample.
use sing_box_inbound_bench.Protocol.Config.Samples.{one_host}
use sing_box_inbound_bench.Protocol.Matrix.{normalize_and_validate_matrix}
use sing_box_inbound_bench.Protocol.Matrix.Accepted.{IsRunnable, accepted-IsRunnable}
use sing_box_inbound_bench.Protocol.Matrix.Samples.{one_case, one_case_accepted}

accepted-IsRunnable_example :
    IsRunnable one_host (normalize_and_validate_matrix one_host one_case).0
accepted-IsRunnable_example = accepted-IsRunnable one_host one_case one_case_accepted
