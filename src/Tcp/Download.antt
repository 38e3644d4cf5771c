-- ===== src/Tcp/Download.antt =====
-- The download of internal/workload/tcp/tcp.go: the server's serveDownload and the client's runDownload.
-- As in the upload, deadlines are left out, and a worker's clock and its context are the parameter `stop`.
-- `closed` tells whether an error is net.ErrClosed.
pub mod Transfer
pub mod Exchange
pub mod Rounds
pub mod Total
pub mod Sound
mod Tests
use sing_box_inbound_bench.Base.{
  ℕ, zero, suc, ◌+◌, ◌*◌, ◌/◌, ◌%◌, ◌^◌, List, [], ◌∷◌, ◌++◌, Bool, true, false, not, ◌&&◌, ◌||◌,
  ◌==◌, if◌then◌else◌, length, u64, u32, bit_xor, bit_or, Option, none, some,
}
use sing_box_inbound_bench.Wire.{
  Error, eof, unexpected_eof, transport, refused, Result, ok, err, Stream, read_full, crc32,
}
use sing_box_inbound_bench.Workers
use sing_box_inbound_bench.Tcp.{FrameHeader, write_header, read_header, op_download, flag_response}
use sing_box_inbound_bench.Tcp.Upload.{Conn, send}

-- One step of the xorshift generator on 64 bits.
unfoldable pub xorshift : ℕ → ℕ
xorshift state =
    let a = bit_xor state (u64 (state * 2 ^ 13)) in
    let b = bit_xor a (a / 2 ^ 7) in bit_xor b (u64 (b * 2 ^ 17))

-- The bytes of a payload from a state on.
unfoldable pub payload_bytes : ℕ → ℕ → List ℕ
payload_bytes zero state = []
payload_bytes (suc n) state = xorshift state % 256 ∷ payload_bytes n (xorshift state)

unfoldable pub fill_payload : ℕ → ℕ → List ℕ
fill_payload n seed = payload_bytes n (bit_xor seed 0x9e3779b97f4a7c15)

unfoldable pub checksum_seed : FrameHeader → ℕ
checksum_seed h = bit_or (h.checksum * 2 ^ 32) h.length

abbrev pub block_frame : List ℕ → ℕ → FrameHeader
block_frame payload completed = record {
  operation = op_download;
  flags = flag_response;
  length = u32 (length payload);
  sequence = completed;
  checksum = crc32 payload;
}

-- `isNetworkTimeout`
abbrev pub is_network_timeout : Error → Bool
is_network_timeout (transport timeout) = timeout
is_network_timeout eof = false
is_network_timeout unexpected_eof = false
is_network_timeout (refused text) = false

-- What follows the write of a block.
abbrev pub after_block :
    (Error → Bool)
    → ℕ
    → (Conn → Option (Option Error × Conn))
    → Option Error × Conn
    → Option (Option Error × Conn)
after_block closed requested next (none, c) = next c
after_block closed requested next (some e, c) =
    some (if requested == 0 && (closed e || is_network_timeout e) then none else some e, c)

-- The server's loop, where `none` is the end of the fuel: without a number of blocks it goes on until a
-- write fails.
unfoldable pub serve_download_blocks :
    (Error → Bool) → ℕ → ℕ → List ℕ → ℕ → Conn → Option (Option Error × Conn)
serve_download_blocks closed zero requested payload completed c = none
serve_download_blocks closed (suc fuel) requested payload completed c =
    let next =
      after_block closed requested
        (serve_download_blocks closed fuel requested payload (u64 (completed + 1)))
        (send (write_header (block_frame payload (u64 (completed + 1))) ++ payload) c) in
    if Workers.goes_on requested completed then next else some (none, c)

unfoldable pub serve_download :
    (Error → Bool) → ℕ → FrameHeader → Conn → Option (Option Error × Conn)
serve_download closed fuel control c =
    serve_download_blocks closed fuel control.sequence
      (fill_payload control.length (checksum_seed control)) 0 c

-- The client's end of the connection, and what it adds to the counters of the workload.
pub record Receiver : Type 0 where
  pub conn : Conn
  pub operations : ℕ
  pub bytes_received : ℕ

-- A round of the client's loop: the function returns, or goes on.
pub data Received : Type 0 where
  ended : Option Error → Receiver → Received
  received : ℕ → Receiver → Received

-- A timeout ends a download without a number of blocks.
unfoldable pub end_of_read : ℕ → Error → Option Error
end_of_read blocks e = if blocks == 0 && is_network_timeout e then none else some e

unfoldable pub at_input : Stream → Receiver → Receiver
at_input input s = record s { conn = record s.conn { input = input } }

unfoldable pub count_received : ℕ → Receiver → Receiver
count_received n s = record s {
  operations = u64 (s.operations + 1);
  bytes_received = u64 (s.bytes_received + n);
}

unfoldable pub take_block : ℕ → List ℕ → ℕ → Receiver → Result (List ℕ × Stream) → Received
take_block blocks expected completed s (err e) = ended (end_of_read blocks e) s
take_block blocks expected completed s (ok (payload, input)) =
    if not (crc32 payload == crc32 expected)
    then ended (some (refused "download payload checksum mismatch")) (at_input input s)
    else received (u64 (completed + 1)) (count_received (length payload) (at_input input s))

unfoldable pub take_response : ℕ → List ℕ → ℕ → Receiver → Result (FrameHeader × Stream) → Received
take_response blocks expected completed s (err e) = ended (end_of_read blocks e) s
take_response blocks expected completed s (ok (response, input)) =
    if not (response.operation == op_download)
      || not (response.flags == flag_response)
      || not (response.length == u32 (length expected))
      || not (response.sequence == u64 (completed + 1))
      || not (response.checksum == crc32 expected)
    then ended (some (refused "download frame header mismatch")) (at_input input s)
    else take_block blocks expected completed (at_input input s) (read_full (length expected) input)

-- The body of the client's loop.
unfoldable pub receive_round : ℕ → List ℕ → ℕ → Receiver → Received
receive_round blocks expected completed s =
    take_response blocks expected completed s (read_header s.conn.input)

abbrev pub continue :
    (ℕ → Receiver → Option (Option Error × Receiver)) → Received → Option (Option Error × Receiver)
continue next (ended e s) = some (e, s)
continue next (received completed s) = next completed s

-- The client's loop, where `none` is the end of the fuel.
unfoldable pub receive_blocks :
    ℕ → ℕ → List ℕ → (ℕ → Bool) → ℕ → Receiver → Option (Option Error × Receiver)
receive_blocks zero blocks expected stop completed s = none
receive_blocks (suc fuel) blocks expected stop completed s =
    let next =
      continue (receive_blocks fuel blocks expected stop)
        (receive_round blocks expected completed s) in
    if not (Workers.goes_on blocks completed) || stop completed then some (none, s) else next

-- The control frame of a worker, with its number of blocks.
abbrev pub download_control : ℕ → ℕ → ℕ → FrameHeader
download_control payload_size blocks worker = record {
  operation = op_download;
  flags = 0;
  length = u32 payload_size;
  sequence = blocks;
  checksum = u32 (worker + 1);
}

abbrev pub after_control :
    ℕ → List ℕ → (ℕ → Bool) → Receiver → Option Error × Conn → Option (Option Error × Receiver)
after_control blocks expected stop s (some e, c) = some (some e, record s { conn = c })
after_control blocks expected stop s (none, c) =
    receive_blocks (suc (length s.conn.input.bytes)) blocks expected stop 0 (record s { conn = c })

-- runDownload behind its dial. A round that goes on has taken a header, so there are fewer rounds than
-- bytes.
unfoldable pub run_download : ℕ → ℕ → ℕ → (ℕ → Bool) → Receiver → Option (Option Error × Receiver)
run_download payload_size blocks worker stop s =
    let control = download_control payload_size blocks worker in
    after_control blocks (fill_payload payload_size (checksum_seed control)) stop s
      (send (write_header control) s.conn)
