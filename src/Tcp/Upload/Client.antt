-- ===== src/Tcp/Upload/Client.antt =====
-- The client of the upload: runUpload and readUploadAcknowledgement of
-- internal/workload/tcp/tcp.go. `stop` tells, of the number of blocks completed, whether the context
-- is cancelled or the time is over when the loop asks.
pub mod Exchange
use sing_box_inbound_bench.Base.{
  ℕ, zero, suc, ◌+◌, ◌%◌, ◌^◌, List, [], ◌∷◌, ◌++◌, Bool, true, false, not, ◌||◌, ◌==◌,
  if◌then◌else◌, length, u64, Option, none, some,
}
use sing_box_inbound_bench.Wire.{Error, refused, Result, ok, err, Stream}
use sing_box_inbound_bench.Workers
use sing_box_inbound_bench.Tcp.{FrameHeader, write_header, read_header, op_upload, flag_response}
use sing_box_inbound_bench.Tcp.Upload.{
  Conn, control_frame, data_frame, done_frame, send, upload_ack_interval,
}

-- The client's end of the connection, and what it adds to the counters of the workload.
pub record Sender : Type 0 where
  pub conn : Conn
  pub operations : ℕ
  pub bytes_sent : ℕ

judge_acknowledgement : ℕ → Conn → Result (FrameHeader × Stream) → Option Error × Conn
judge_acknowledgement completed c (err e) = (some e, c)
judge_acknowledgement completed c (ok (response, input)) =
    if not (response.operation == op_upload)
      || not (response.flags == flag_response)
      || not (response.sequence == completed)
    then (some (refused "upload acknowledgement mismatch"), record c { input = input })
    else (none, record c { input = input })

pub read_upload_acknowledgement : ℕ → Conn → Option Error × Conn
read_upload_acknowledgement completed c = judge_acknowledgement completed c (read_header c.input)

-- The outcome of a round: an error, or the state with which the loop goes on.
pub data Sent : Type 0 where
  failed : Error → Sender → Sent
  sent : ℕ → Sender → Sent

count_block : List ℕ → Sender → Sender
count_block payload s = record s {
  operations = u64 (s.operations + 1);
  bytes_sent = u64 (s.bytes_sent + length payload);
}

abbrev pub acknowledged : ℕ → Sender → Option Error × Conn → Sent
acknowledged completed s (none, c) = sent completed (record s { conn = c })
acknowledged completed s (some e, c) = failed e (record s { conn = c })

await_acknowledgement : List ℕ → ℕ → Sender → Sent
await_acknowledgement payload completed s =
    if completed % upload_ack_interval (length payload) == 0
    then acknowledged completed s (read_upload_acknowledgement completed s.conn)
    else sent completed s

abbrev written : List ℕ → ℕ → Sender → Option Error × Conn → Sent
written payload completed s (some e, c) = failed e (record s { conn = c })
written payload completed s (none, c) =
    await_acknowledgement payload completed (count_block payload (record s { conn = c }))

-- The body of the loop.
pub send_round : List ℕ → ℕ → Sender → Sent
send_round payload completed s =
    written payload (u64 (completed + 1)) s
      (send (write_header (data_frame payload (u64 (completed + 1))) ++ payload) s.conn)

abbrev pub resume :
    (ℕ → Sender → Option (Option Error × ℕ × Sender)) → Sent → Option (Option Error × ℕ × Sender)
resume next (failed e s) = some (some e, 0, s)
resume next (sent completed s) = next completed s

-- The loop, where `none` is the end of the fuel: without a number of blocks it goes on until `stop`.
pub send_blocks : ℕ → List ℕ → ℕ → (ℕ → Bool) → ℕ → Sender → Option (Option Error × ℕ × Sender)
send_blocks zero payload blocks stop completed s = none
send_blocks (suc fuel) payload blocks stop completed s =
    let next = resume (send_blocks fuel payload blocks stop) (send_round payload completed s) in
    if not (Workers.goes_on blocks completed) || stop completed
    then some (none, completed, s)
    else next

abbrev announced : ℕ → Sender → Option Error × Conn → Option Error × Sender
announced completed s (some e, c) = (some e, record s { conn = c })
announced completed s (none, c) =
    let (e, c') = read_upload_acknowledgement completed c in (e, record s { conn = c' })

-- The finish frame, and the final acknowledgement.
pub finish : Option (Option Error × ℕ × Sender) → Option (Option Error × Sender)
finish none = none
finish (some (some e, completed, s)) = some (some e, s)
finish (some (none, completed, s)) =
    some (announced completed s (send (write_header (done_frame completed)) s.conn))

opened : ℕ → List ℕ → ℕ → (ℕ → Bool) → Sender → Option Error × Conn → Option (Option Error × Sender)
opened fuel payload blocks stop s (some e, c) = some (some e, record s { conn = c })
opened fuel payload blocks stop s (none, c) =
    finish (send_blocks fuel payload blocks stop 0 (record s { conn = c }))

-- runUpload of a worker's share of the requests, behind the dial.
pub run_upload : ℕ → List ℕ → ℕ → (ℕ → Bool) → Sender → Option (Option Error × Sender)
run_upload fuel payload blocks stop s =
    opened fuel payload blocks stop s (send (write_header (control_frame payload blocks)) s.conn)
