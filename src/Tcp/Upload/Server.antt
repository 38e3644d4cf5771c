-- ===== src/Tcp/Upload/Server.antt =====
-- The server of internal/workload/tcp/tcp.go on a well-formed upload.
use mathlib.Core.List.{append_assoc, append-nil}
use sing_box_inbound_bench.Base.{
  ℕ, zero, suc, ◌+◌, ◌%◌, ◌^◌, ◌≤◌, ◌<◌, List, [], ◌++◌, Bool, true, false, not, ◌&&◌, ◌||◌, ◌==◌,
  if◌then◌else◌, if-false, ltb, length, u64, Option, none, some, ◌≡◌, refl, ap, sym, ◌∙◌, ◌⊎◌, inl,
  inr, arith, length-append,
}
use sing_box_inbound_bench.Wire.{Error, read_full-append, crc32, crc32-lt}
use sing_box_inbound_bench.Tcp.{write_header}
use sing_box_inbound_bench.Tcp.Frames.{IsHeader, read-write, length-write}
use sing_box_inbound_bench.Tcp.Upload.{
  Conn, control_frame, data_frame, done_frame, send, upload_ack_interval, acknowledgement,
  write_upload_acknowledgement, goes_on, returns, finish_upload, count_block, take_payload,
  take_data, take_frame, serve_round, resume, serve_blocks, serve_upload,
}

-- A connection whose writes all succeed.
abbrev pub conn : List ℕ → Error → List ℕ → Conn
conn bytes e out = record {
  input = record { bytes = bytes; at_end = e };
  output = out;
  breaks_after = none;
}

module _ (payload : List ℕ) where
  -- What the sender of `n` blocks behind the first `k` puts on the wire.
  unfoldable pub blocks : ℕ → ℕ → List ℕ
  blocks k zero = []
  blocks k (suc n) = write_header (data_frame payload (suc k)) ++ (payload ++ blocks (suc k) n)

  abbrev pub ack_after : ℕ → List ℕ
  ack_after k =
      if k % upload_ack_interval (length payload) == 0 then write_header (acknowledgement k) else []

  -- The progress acknowledgements of these blocks.
  unfoldable pub acks : ℕ → ℕ → List ℕ
  acks k zero = []
  acks k (suc n) = ack_after (suc k) ++ acks (suc k) n

  -- The client asked for at least `k` blocks, or for no number of blocks.
  abbrev pub Allows : ℕ → ℕ → Type 0
  Allows requested k = (requested ≡ 0) ⊎ (k ≤ requested)

  data_frame-IsHeader :
      (k : ℕ) → length payload < 2 ^ 32 → k < 2 ^ 64 → IsHeader (data_frame payload k)
  data_frame-IsHeader k small h = record {
    operation_u8 = omega arith;
    flags_u16 = omega arith;
    length_u32 = small;
    sequence_u64 = h;
    checksum_u32 = crc32-lt payload;
  }

  done_frame-IsHeader : (k : ℕ) → k < 2 ^ 64 → IsHeader (done_frame k)
  done_frame-IsHeader k h = omega arith

  count_block_lem :
      (k : ℕ) (bytes : List ℕ) (e : Error) (out : List ℕ)
      → count_block (upload_ack_interval (length payload)) k (conn bytes e out)
        ≡ goes_on k (conn bytes e (out ++ ack_after k))
  unfolding count_block write_upload_acknowledgement send
  count_block_lem k bytes e out = go (k % upload_ack_interval (length payload) == 0)
    where
      w : List ℕ
      w = write_header (acknowledgement k)

      go :
          (b : Bool)
          → (if b then goes_on k (conn bytes e (out ++ w)) else goes_on k (conn bytes e out))
            ≡ goes_on k (conn bytes e (out ++ (if b then w else [])))
      go true = refl
      go false = ap (λ o. goes_on k (conn bytes e o)) (sym (append-nil out))

  take_data_lem :
      (requested k : ℕ) (rest : List ℕ) (e : Error) (out : List ℕ)
      → suc k < 2 ^ 64
      → Allows requested (suc k)
      → take_data
          (control_frame payload requested)
          k
          (data_frame payload (suc k))
          (conn (payload ++ rest) e out)
        ≡ goes_on (suc k) (conn rest e (out ++ ack_after (suc k)))
  unfolding take_data take_payload
  take_data_lem requested k rest e out bound allowed =
      if-false _ _ _ well_formed
      ∙ if-false _ _ _ (in_count allowed)
      ∙ ap
          (take_payload (control_frame payload requested) k (data_frame payload (suc k))
            (conn (payload ++ rest) e out))
          (read_full-append (length payload) payload rest e refl)
      ∙ if-false _ _ _ intact
      ∙ ap (λ n. count_block (upload_ack_interval (length payload)) n (conn rest e out)) counted
      ∙ count_block_lem (suc k) rest e out
    where
      counted : u64 (k + 1) ≡ suc k
      counted = omega arith

      intact : not (crc32 payload == crc32 payload) ≡ false
      intact = ground arith

      well_formed :
          (not (length payload == length payload)
            || not (suc k == u64 (k + 1))
            || not (crc32 payload == crc32 payload))
          ≡ false
      well_formed = ground arith

      in_count : Allows requested (suc k) → (not (requested == 0) && ltb requested (suc k)) ≡ false
      in_count a = ground arith

  serve_round_data :
      (requested k : ℕ) (rest : List ℕ) (e : Error) (out : List ℕ)
      → length payload < 2 ^ 32
      → suc k < 2 ^ 64
      → Allows requested (suc k)
      → serve_round
          (control_frame payload requested)
          k
          (conn (write_header (data_frame payload (suc k)) ++ (payload ++ rest)) e out)
        ≡ goes_on (suc k) (conn rest e (out ++ ack_after (suc k)))
  unfolding serve_round take_frame
  serve_round_data requested k rest e out small bound allowed =
      ap (take_frame (control_frame payload requested) k _) (
        read-write (data_frame payload (suc k)) (payload ++ rest) e
          (data_frame-IsHeader (suc k) small bound))
      ∙ take_data_lem requested k rest e out bound allowed

  serve_round_done :
      (requested n : ℕ) (rest : List ℕ) (e : Error) (out : List ℕ)
      → n < 2 ^ 64
      → (requested ≡ 0) ⊎ (n ≡ requested)
      → serve_round
          (control_frame payload requested)
          n
          (conn (write_header (done_frame n) ++ rest) e out)
        ≡ returns (none, conn rest e (out ++ write_header (acknowledgement n)))
  unfolding serve_round take_frame finish_upload write_upload_acknowledgement send
  serve_round_done requested n rest e out bound exact =
      ap (take_frame (control_frame payload requested) n _)
        (read-write (done_frame n) rest e (done_frame-IsHeader n bound))
      ∙ if-false _ _ _ well_formed
      ∙ if-false _ _ _ (complete exact)
    where
      well_formed : not (n == n) ≡ false
      well_formed = ground arith

      complete :
          (requested ≡ 0) ⊎ (n ≡ requested) → (not (requested == 0) && not (n == requested)) ≡ false
      complete a = ground arith

  regroup : (a b c d : List ℕ) → (a ++ (b ++ c)) ++ d ≡ a ++ (b ++ (c ++ d))
  regroup a b c d = append_assoc a (b ++ c) d ∙ ap (λ x. a ++ x) (append_assoc b c d)

  -- The loop on the `n` blocks that are left of `j`, with any fuel above their number.
  serve_blocks_lem :
      (requested k n j fuel : ℕ) (rest : List ℕ) (e : Error) (out : List ℕ)
      → length payload < 2 ^ 32
      → j < 2 ^ 64
      → k + n ≡ j
      → (requested ≡ 0) ⊎ (j ≡ requested)
      → n < fuel
      → serve_blocks fuel
          (control_frame payload requested)
          k
          (conn (blocks k n ++ (write_header (done_frame j) ++ rest)) e out)
        ≡ some (none, conn rest e (out ++ (acks k n ++ write_header (acknowledgement j))))
  unfolding serve_blocks blocks acks
  serve_blocks_lem requested k n j zero rest e out small bound total exact enough = elim enough [ ]
  serve_blocks_lem requested k zero j (suc fuel) rest e out small bound total exact enough =
      let kj : k ≡ j = omega arith in
      ap
        (λ i. resume (serve_blocks fuel (control_frame payload requested)) (
          serve_round (control_frame payload requested) i
            (conn (write_header (done_frame j) ++ rest) e out)))
        kj
      ∙ ap (resume (serve_blocks fuel (control_frame payload requested)))
          (serve_round_done requested j rest e out bound exact)
  serve_blocks_lem requested k (suc n) j (suc fuel) rest e out small bound total exact enough =
      ap
        (λ bytes. resume again (serve_round (control_frame payload requested) k (conn bytes e out)))
        (regroup (write_header (data_frame payload (suc k))) payload (blocks (suc k) n) tail)
      ∙ ap (resume again) (
          serve_round_data requested k (blocks (suc k) n ++ tail) e out small (omega arith)
            (allows exact))
      ∙ serve_blocks_lem requested (suc k) n j fuel rest e (out ++ ack_after (suc k)) small bound
          (omega arith) exact (omega arith)
      ∙ ap (λ o. some (none, conn rest e o)) (sym reassoc)
    where
      tail : List ℕ
      tail = write_header (done_frame j) ++ rest

      again : ℕ → Conn → Option (Option Error × Conn)
      again = serve_blocks fuel (control_frame payload requested)

      allows : (requested ≡ 0) ⊎ (j ≡ requested) → Allows requested (suc k)
      allows (inl z) = inl z
      allows (inr z) = inr (omega arith)

      reassoc :
          out ++ ((ack_after (suc k) ++ acks (suc k) n) ++ write_header (acknowledgement j))
          ≡ (out ++ ack_after (suc k)) ++ (acks (suc k) n ++ write_header (acknowledgement j))
      reassoc =
          ap (λ x. out ++ x) (append_assoc (ack_after (suc k)) (acks (suc k) n) _)
          ∙ sym (append_assoc out (ack_after (suc k)) _)

  -- The bytes that a client of `n` blocks sends behind its control frame.
  unfoldable pub upload_stream : ℕ → List ℕ → List ℕ
  upload_stream n rest = blocks 0 n ++ (write_header (done_frame n) ++ rest)

  -- What the server answers to them.
  unfoldable pub upload_answer : ℕ → List ℕ
  upload_answer n = acks 0 n ++ write_header (acknowledgement n)

  length-blocks : (k n : ℕ) (rest : List ℕ) → n ≤ length (blocks k n ++ rest)
  unfolding blocks
  length-blocks k zero rest = omega arith
  length-blocks k (suc n) rest = omega (
    arith,
    ap length (regroup (write_header (data_frame payload (suc k))) payload (blocks (suc k) n) rest),
    length-append (write_header (data_frame payload (suc k)))
        (payload ++ (blocks (suc k) n ++ rest)),
    length-append payload (blocks (suc k) n ++ rest),
    length-write (data_frame payload (suc k)),
    length-blocks (suc k) n rest,
  )

  -- The server takes the stream of an upload of `n` blocks to its end, returns no error, and sends
  -- exactly the progress acknowledgements and the final one, provided that the control frame asked
  -- for `n` blocks or for no number, and that the payload and `n` fit the fields of a frame.
  pub serve_upload-stream :
      (requested n : ℕ) (rest : List ℕ) (e : Error) (out : List ℕ)
      → length payload < 2 ^ 32
      → n < 2 ^ 64
      → (requested ≡ 0) ⊎ (n ≡ requested)
      → serve_upload (control_frame payload requested) (conn (upload_stream n rest) e out)
        ≡ some (none, conn rest e (out ++ upload_answer n))
  unfolding serve_upload upload_stream upload_answer
  serve_upload-stream requested n rest e out small bound exact =
      serve_blocks_lem requested 0 n n _ rest e out small bound (omega arith) exact
        (omega (arith, length-blocks 0 n (write_header (done_frame n) ++ rest)))
