-- ===== src/Tcp/Download/Tests.antt =====
-- The theorems about downloads at a download of two blocks of three bytes.
use sing_box_inbound_bench.Base.{ℕ, List, [], ◌∷◌, ◌++◌, false, none, some, ◌≡◌, refl, arith}
use sing_box_inbound_bench.Wire.{eof, ok}
use sing_box_inbound_bench.Tcp.{write_header, read_header}
use sing_box_inbound_bench.Tcp.Upload.Server.{conn}
use sing_box_inbound_bench.Tcp.Download.{
  serve_download, run_download, download_control, fill_payload, payload_bytes, xorshift,
}
use sing_box_inbound_bench.Tcp.Download.Transfer.{blocks_stream, receiver}
use sing_box_inbound_bench.Tcp.Download.Exchange.{payload_of, download_exchange}
use sing_box_inbound_bench.Tcp.Download.Sound.{Complete, run_download-Complete}

abbrev two_blocks : List ℕ
two_blocks = blocks_stream (payload_of 3 2 0) 0 2

download_exchange_example :
    (read_header (record { bytes = write_header (download_control 3 2 0) ++ []; at_end = eof })
      ≡ ok (download_control 3 2 0, record { bytes = []; at_end = eof }))
    × (serve_download (λ e. false) 3 (download_control 3 2 0) (conn [] eof [])
        ≡ some (none, conn [] eof two_blocks))
    × (run_download 3 2 0 (λ j. false) (receiver (payload_of 3 2 0) 0 two_blocks eof [])
        ≡ some (none, receiver (payload_of 3 2 0) 2 [] eof (write_header (download_control 3 2 0))))
download_exchange_example =
    download_exchange (λ e. false) 3 2 0 3 [] eof (omega arith) (omega arith) (omega arith)
      (omega arith)

run_download-Complete_example :
    Complete 2
      (payload_of 3 2 0)
      0
      (receiver (payload_of 3 2 0) 0 two_blocks eof [])
      (receiver (payload_of 3 2 0) 2 [] eof (write_header (download_control 3 2 0)))
run_download-Complete_example =
    run_download-Complete 3 2 0 (receiver (payload_of 3 2 0) 0 two_blocks eof [])
      (receiver (payload_of 3 2 0) 2 [] eof (write_header (download_control 3 2 0))) (omega arith)
      (omega arith) refl
      (download_exchange (λ e. false) 3 2 0 3 [] eof (omega arith) (omega arith) (omega arith)
        (omega arith)).2

-- The first bytes of the generator from the seed 1.
fill_payload_sample : fill_payload 3 1 ≡ 236 ∷ 55 ∷ 31 ∷ []
unfolding fill_payload payload_bytes xorshift
fill_payload_sample = refl
