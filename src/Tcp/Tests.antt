-- ===== src/Tcp/Tests.antt =====
-- The TCP workload on an upload of two blocks of three bytes.
use sing_box_inbound_bench.Base.{
  ℕ, List, [], ◌∷◌, ◌++◌, false, Option, none, some, ◌≡◌, refl, inr, arith,
}
use sing_box_inbound_bench.Wire.{Error, eof, ok}
use sing_box_inbound_bench.Tcp.{FrameHeader, write_header, read_header}
use sing_box_inbound_bench.Tcp.Frames.{IsHeader, read-write}
use sing_box_inbound_bench.Tcp.Upload.{Conn, control_frame, serve_upload}
use sing_box_inbound_bench.Tcp.Upload.Server.{
  conn, upload_stream, upload_answer, serve_upload-stream,
}
use sing_box_inbound_bench.Tcp.Upload.Sound.{Accepted, serve_upload-Accepted, serve_upload-total}
use sing_box_inbound_bench.Tcp.Upload.Client.{run_upload}
use sing_box_inbound_bench.Tcp.Upload.Client.Exchange.{
  sender, EndsAt, control_bytes, upload_exchange,
}

abbrev payload : List ℕ
payload = 1 ∷ 2 ∷ 3 ∷ []

abbrev echo : FrameHeader
echo = record { operation = 1; flags = 2; length = 3; sequence = 70000; checksum = 4 }

echo-IsHeader : IsHeader echo
echo-IsHeader = record {
  operation_u8 = omega arith;
  flags_u16 = omega arith;
  length_u32 = omega arith;
  sequence_u64 = omega arith;
  checksum_u32 = omega arith;
}

read-write_example :
    read_header (record { bytes = write_header echo ++ payload; at_end = eof })
    ≡ ok (echo, record { bytes = payload; at_end = eof })
read-write_example = read-write echo payload eof echo-IsHeader

serve_upload-stream_example :
    serve_upload (control_frame payload 2) (conn (upload_stream payload 2 []) eof [])
    ≡ some (none, conn [] eof (upload_answer payload 2))
serve_upload-stream_example =
    serve_upload-stream payload 2 2 [] eof [] (omega arith) (omega arith) (inr refl)

serve_upload-Accepted_example :
    Accepted
      (control_frame payload 2)
      0
      (conn (upload_stream payload 2 []) eof [])
      (conn [] eof (upload_answer payload 2))
serve_upload-Accepted_example =
    serve_upload-Accepted (control_frame payload 2) (conn (upload_stream payload 2 []) eof [])
      (conn [] eof (upload_answer payload 2))
      (serve_upload-stream payload 2 2 [] eof [] (omega arith) (omega arith) (inr refl))

serve_upload-total_example :
    (r : Option Error × Conn) × (serve_upload (control_frame payload 0) (conn payload eof [])
      ≡ some r)
serve_upload-total_example = serve_upload-total (control_frame payload 0) (conn payload eof [])

two_blocks_end : EndsAt payload 2 (λ k. false) 2
two_blocks_end = (λ i h. ground arith, refl)

upload_exchange_example :
    (run_upload 3 payload 2
        (λ k. false)
        (sender payload 0 (conn (upload_answer payload 2 ++ []) eof []))
      ≡ some (
        none,
        sender payload 2 (conn [] eof (control_bytes payload 2 ++ upload_stream payload 2 [])),
      ))
    × (serve_upload (control_frame payload 2) (conn (upload_stream payload 2 []) eof [])
        ≡ some (none, conn [] eof (upload_answer payload 2)))
upload_exchange_example =
    upload_exchange payload 2 2 3 (λ k. false) eof (omega arith) (omega arith) (inr refl)
      two_blocks_end (omega arith)
