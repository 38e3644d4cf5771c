-- ===== src/Tcp/Upload/Client/Exchange.antt =====
-- The client and the server of the upload of internal/workload/tcp/tcp.go, each on what the other
-- sends.
use mathlib.Core.List.{append_assoc, append-nil}
use sing_box_inbound_bench.Base.{
  ℕ, zero, suc, ◌+◌, ◌*◌, ◌%◌, ◌^◌, ◌<◌, List, [], ◌++◌, Bool, true, false, not, ◌||◌, ◌==◌,
  if◌then◌else◌, if-true, if-false, length, u64, Option, none, some, ◌≡◌, refl, ap, sym, ◌∙◌, ◌⊎◌,
  arith,
}
use sing_box_inbound_bench.Wire.{Error}
use sing_box_inbound_bench.Workers
use sing_box_inbound_bench.Tcp.{write_header}
use sing_box_inbound_bench.Tcp.Frames.{IsHeader, read-write}
use sing_box_inbound_bench.Tcp.Upload.{
  Conn, control_frame, data_frame, done_frame, send, upload_ack_interval, acknowledgement,
  serve_upload,
}
use sing_box_inbound_bench.Tcp.Upload.Server.{
  conn, blocks, acks, ack_after, upload_stream, upload_answer, serve_upload-stream,
}
use sing_box_inbound_bench.Tcp.Upload.Client.{
  Sender, sent, acknowledged, judge_acknowledgement, read_upload_acknowledgement, count_block,
  await_acknowledgement, send_round, resume, send_blocks, announced, finish, opened, run_upload,
}

module _ (payload : List ℕ) where
  -- The client after `k` blocks.
  abbrev pub sender : ℕ → Conn → Sender
  sender k c = record { conn = c; operations = k; bytes_sent = u64 (k * length payload) }

  acknowledgement-IsHeader : (k : ℕ) → k < 2 ^ 64 → IsHeader (acknowledgement k)
  unfolding acknowledgement
  acknowledgement-IsHeader k h = omega arith

  read_acknowledgement_lem :
      (k : ℕ) (rest : List ℕ) (e : Error) (out : List ℕ)
      → k < 2 ^ 64
      → read_upload_acknowledgement k (conn (write_header (acknowledgement k) ++ rest) e out)
        ≡ (none, conn rest e out)
  unfolding read_upload_acknowledgement judge_acknowledgement acknowledgement
  read_acknowledgement_lem k rest e out h =
      ap (judge_acknowledgement k _)
        (read-write (acknowledgement k) rest e (acknowledgement-IsHeader k h))
      ∙ if-false _ _ _ matches
    where
      matches : not (k == k) ≡ false
      matches = ground arith

  await_lem :
      (k : ℕ) (rest : List ℕ) (e : Error) (out : List ℕ)
      → k < 2 ^ 64
      → await_acknowledgement payload k (sender k (conn (ack_after payload k ++ rest) e out))
        ≡ sent k (sender k (conn rest e out))
  unfolding await_acknowledgement
  await_lem k rest e out h = go (k % upload_ack_interval (length payload) == 0)
    where
      w : List ℕ
      w = write_header (acknowledgement k)

      input : Bool → Sender
      input b = sender k (conn ((if b then w else []) ++ rest) e out)

      go :
          (b : Bool)
          → (if b
              then acknowledged k (input b) (read_upload_acknowledgement k (input b).conn)
              else sent k (input b))
            ≡ sent k (sender k (conn rest e out))
      go true = ap (acknowledged k (input true)) (read_acknowledgement_lem k rest e out h)
      go false = refl

  send_round_lem :
      (k : ℕ) (rest : List ℕ) (e : Error) (out : List ℕ)
      → suc k < 2 ^ 64
      → send_round payload k (sender k (conn (ack_after payload (suc k) ++ rest) e out))
        ≡ sent (suc k) (
            sender
              (suc k)
              (conn rest e (out ++ (write_header (data_frame payload (suc k)) ++ payload))))
  unfolding send_round send count_block
  send_round_lem k rest e out h =
      (λ i. await_acknowledgement payload (counted i) (record {
        conn =
            conn (ack_after payload (suc k) ++ rest) e
              (out ++ (write_header (data_frame payload (counted i)) ++ payload));
        operations = counted i;
        bytes_sent = tallied i;
      }))
      ∙ await_lem (suc k) rest e (out ++ (write_header (data_frame payload (suc k)) ++ payload)) h
    where
      counted : u64 (k + 1) ≡ suc k
      counted = omega arith

      tallied : u64 (u64 (k * length payload) + length payload) ≡ u64 (suc k * length payload)
      tallied = omega arith

  -- The loop of a client that asked for `requested` blocks ends behind `j` blocks, and not before.
  abbrev pub EndsAt : ℕ → (ℕ → Bool) → ℕ → Type 0
  EndsAt requested stop j =
      ((i : ℕ) → i < j → (not (Workers.goes_on requested i) || stop i) ≡ false)
      × ((not (Workers.goes_on requested j) || stop j) ≡ true)

  send_blocks_lem :
      (requested k n j fuel : ℕ) (stop : ℕ → Bool) (rest : List ℕ) (e : Error) (out : List ℕ)
      → j < 2 ^ 64
      → k + n ≡ j
      → EndsAt requested stop j
      → n < fuel
      → send_blocks fuel payload requested stop k (sender k (conn (acks payload k n ++ rest) e out))
        ≡ some (none, j, sender j (conn rest e (out ++ blocks payload k n)))
  unfolding send_blocks acks blocks
  send_blocks_lem requested k n j zero stop rest e out bound total ends enough = elim enough [ ]
  send_blocks_lem requested k zero j (suc fuel) stop rest e out bound total ends enough =
      let kj : k ≡ j = omega arith in
      if-true _ _ _ (ap (λ i. not (Workers.goes_on requested i) || stop i) kj ∙ ends.1)
      ∙ (λ i. some (none, kj i, sender (kj i) (conn rest e (grown i))))
    where
      grown : out ≡ out ++ []
      grown = sym (append-nil out)
  send_blocks_lem requested k (suc n) j (suc fuel) stop rest e out bound total ends enough =
      if-false _ _ _ (ends.0 k (omega arith))
      ∙ ap (λ bytes. resume again (send_round payload k (sender k (conn bytes e out))))
          (append_assoc (ack_after payload (suc k)) (acks payload (suc k) n) rest)
      ∙ ap (resume again) (send_round_lem k (acks payload (suc k) n ++ rest) e out (omega arith))
      ∙ send_blocks_lem requested (suc k) n j fuel stop rest e (out ++ block_bytes) bound
          (omega arith) ends (omega arith)
      ∙ ap (λ o. some (none, j, sender j (conn rest e o))) reassoc
    where
      again : ℕ → Sender → Option (Option Error × ℕ × Sender)
      again = send_blocks fuel payload requested stop

      block_bytes : List ℕ
      block_bytes = write_header (data_frame payload (suc k)) ++ payload

      reassoc :
          (out ++ block_bytes) ++ blocks payload (suc k) n
          ≡ out
            ++ (write_header (data_frame payload (suc k)) ++ (payload ++ blocks payload (suc k) n))
      reassoc =
          append_assoc out block_bytes (blocks payload (suc k) n)
          ∙ ap (λ x. out ++ x)
              (append_assoc (write_header (data_frame payload (suc k))) payload
                (blocks payload (suc k) n))

  abbrev pub control_bytes : ℕ → List ℕ
  control_bytes requested = write_header (control_frame payload requested)

  announced_lem :
      (n : ℕ) (rest : List ℕ) (e : Error) (out : List ℕ)
      → n < 2 ^ 64
      → finish (some (none, n, sender n (conn (write_header (acknowledgement n) ++ rest) e out)))
        ≡ some (none, sender n (conn rest e (out ++ write_header (done_frame n))))
  unfolding finish announced send
  announced_lem n rest e out h =
      ap
        (λ p.
          some (p.0, record { conn = p.1; operations = n; bytes_sent = u64 (n * length payload) }))
        (read_acknowledgement_lem n rest e (out ++ write_header (done_frame n)) h)

  run_upload-answer :
      (requested n fuel : ℕ) (stop : ℕ → Bool) (rest : List ℕ) (e : Error) (out : List ℕ)
      → n < 2 ^ 64
      → EndsAt requested stop n
      → n < fuel
      → run_upload fuel payload requested stop
          (sender 0 (conn (upload_answer payload n ++ rest) e out))
        ≡ some (
          none,
          sender n (conn rest e (out ++ (control_bytes requested ++ upload_stream payload n []))),
        )
  unfolding run_upload opened send upload_answer upload_stream
  run_upload-answer requested n fuel stop rest e out bound ends enough =
      ap
        (λ bytes. finish (
          send_blocks fuel payload requested stop 0
            (sender 0 (conn bytes e (out ++ control_bytes requested)))))
        (append_assoc (acks payload 0 n) (write_header (acknowledgement n)) rest)
      ∙ ap finish (
          send_blocks_lem requested 0 n n fuel stop (write_header (acknowledgement n) ++ rest) e
            (out ++ control_bytes requested) bound (omega arith) ends enough)
      ∙ announced_lem n rest e ((out ++ control_bytes requested) ++ blocks payload 0 n) bound
      ∙ ap (λ o. some (none, sender n (conn rest e o))) reassoc
    where
      reassoc :
          ((out ++ control_bytes requested) ++ blocks payload 0 n) ++ write_header (done_frame n)
          ≡ out
            ++ (control_bytes requested
                ++ (blocks payload 0 n ++ (write_header (done_frame n) ++ [])))
      reassoc =
          append_assoc (out ++ control_bytes requested) (blocks payload 0 n)
            (write_header (done_frame n))
          ∙ append_assoc out (control_bytes requested) _
          ∙ ap (λ x. out ++ (control_bytes requested ++ (blocks payload 0 n ++ x)))
              (sym (append-nil (write_header (done_frame n))))

  -- An upload of `n` blocks: the client whose loop ends behind `n` blocks, and who asked for `n` or
  -- for no number, takes the server's answer and sends the control frame and the stream, counting
  -- `n` operations and the bytes of `n` payloads; and the server takes that stream and sends that
  -- answer. Both return without an error, where the payload and `n` fit the fields of a frame.
  pub upload_exchange :
      (requested n fuel : ℕ) (stop : ℕ → Bool) (e : Error)
      → length payload < 2 ^ 32
      → n < 2 ^ 64
      → (requested ≡ 0) ⊎ (n ≡ requested)
      → EndsAt requested stop n
      → n < fuel
      → (run_upload fuel payload requested stop
            (sender 0 (conn (upload_answer payload n ++ []) e []))
          ≡ some
              (none, sender n (conn [] e (control_bytes requested ++ upload_stream payload n []))))
        × (serve_upload (control_frame payload requested) (conn (upload_stream payload n []) e [])
            ≡ some (none, conn [] e (upload_answer payload n)))
  upload_exchange requested n fuel stop e small bound exact ends enough = (
    run_upload-answer requested n fuel stop [] e [] bound ends enough,
    serve_upload-stream payload requested n [] e [] small bound exact,
  )
