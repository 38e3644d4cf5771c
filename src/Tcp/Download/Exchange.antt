-- ===== src/Tcp/Download/Exchange.antt =====
-- The client and the server of the download of internal/workload/tcp/tcp.go, each on what the other sends.
use mathlib.Core.List.{append-nil}
use sing_box_inbound_bench.Base.{
  ℕ, zero, suc, ◌^◌, ◌<◌, ◌≤◌, List, [], ◌++◌, Bool, false, length, length-append, u32, none, some,
  ◌≡◌, refl, ap, sym, ◌∙◌, arith,
}
use sing_box_inbound_bench.Wire.{Error, ok}
use sing_box_inbound_bench.Tcp.{FrameHeader, write_header, read_header}
use sing_box_inbound_bench.Tcp.Frames.{IsHeader, read-write, length-write}
use sing_box_inbound_bench.Tcp.Upload.{send}
use sing_box_inbound_bench.Tcp.Upload.Server.{conn}
use sing_box_inbound_bench.Tcp.Download.{
  block_frame, serve_download_blocks, serve_download, receive_blocks, xorshift, download_control,
  run_download, fill_payload, payload_bytes, checksum_seed,
}
use sing_box_inbound_bench.Tcp.Download.Transfer.{
  blocks_stream, receiver, receive_blocks_lem, serve_blocks_lem,
}

length-payload_bytes : (n state : ℕ) → length (payload_bytes n state) ≡ n
unfolding payload_bytes
length-payload_bytes zero state = refl
length-payload_bytes (suc n) state = ap suc (length-payload_bytes n (xorshift state))

pub length-fill_payload : (n seed : ℕ) → length (fill_payload n seed) ≡ n
unfolding fill_payload
length-fill_payload n seed = length-payload_bytes n _

-- A stream of blocks has as many bytes as blocks, and more.
blocks_stream-long : (payload : List ℕ) (k more : ℕ) → more ≤ length (blocks_stream payload k more)
unfolding blocks_stream
blocks_stream-long payload k zero = omega arith
blocks_stream-long payload k (suc more) =
    let frame = write_header (block_frame payload (suc k)) in
    let later = blocks_stream payload (suc k) more in
    omega (
      arith,
      length-append frame (payload ++ later),
      length-append payload later,
      length-write (block_frame payload (suc k)),
      blocks_stream-long payload (suc k) more,
    )

-- The payload that both ends make of a control frame.
abbrev pub payload_of : ℕ → ℕ → ℕ → List ℕ
payload_of size n worker = fill_payload size (checksum_seed (download_control size n worker))

-- A download of n blocks, by the frame of a client that is not stopped: the server takes the frame and
-- sends n blocks, without an error; and the client takes these blocks, counting n operations and the bytes
-- of n payloads, without an error.
pub download_exchange :
    (closed : Error → Bool) (size n worker fuel : ℕ) (input : List ℕ) (e : Error)
    → size < 2 ^ 32
    → 0 < n
    → n < 2 ^ 64
    → n < fuel
    → (read_header
          (record { bytes = write_header (download_control size n worker) ++ input; at_end = e })
        ≡ ok (download_control size n worker, record { bytes = input; at_end = e }))
      × (serve_download closed fuel (download_control size n worker) (conn input e [])
          ≡ some (none, conn input e (blocks_stream (payload_of size n worker) 0 n)))
      × (run_download size n worker
            (λ j. false)
            (receiver
              (payload_of size n worker)
              0
              (blocks_stream (payload_of size n worker) 0 n)
              e
              [])
          ≡ some (
            none,
            receiver
                (payload_of size n worker)
                n
                []
                e
                (write_header (download_control size n worker)),
          ))
unfolding serve_download run_download send
download_exchange closed size n worker fuel input e small some_block bound enough = (
  read-write control input e control_ok,
  ap
        (λ l.
          serve_download_blocks closed fuel n (fill_payload l (checksum_seed control)) 0
            (conn input e []))
        whole
      ∙ serve_blocks_lem payload payload_small closed n fuel 0 n input e [] (omega arith) some_block
          bound enough,
  ap
        (λ xs.
          receive_blocks (suc (length stream)) n payload (λ j. false) 0
            (receiver payload 0 xs e (write_header control)))
        (sym (append-nil stream))
      ∙ receive_blocks_lem payload payload_small n (suc (length stream)) 0 n [] e
          (write_header control) (omega arith) some_block bound
          (omega (arith, blocks_stream-long payload 0 n)),
)
  where
    control : FrameHeader
    control = download_control size n worker

    payload : List ℕ
    payload = payload_of size n worker

    stream : List ℕ
    stream = blocks_stream payload 0 n

    whole : u32 size ≡ size
    whole = omega (arith, small)

    payload_small : length payload < 2 ^ 32
    payload_small = omega (arith, length-fill_payload size (checksum_seed control), small)

    control_ok : IsHeader control
    control_ok = record {
      operation_u8 = omega arith;
      flags_u16 = omega arith;
      length_u32 = omega arith;
      sequence_u64 = bound;
      checksum_u32 = omega arith;
    }
