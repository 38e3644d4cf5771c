-- ===== src/Tcp/Download/Transfer.antt =====
-- The loops of the client and of the server of the download of internal/workload/tcp/tcp.go on a stream of
-- blocks.
use mathlib.Core.List.{append_assoc, append-nil}
use sing_box_inbound_bench.Base.{
  ℕ, zero, suc, ◌+◌, ◌*◌, ◌^◌, ◌<◌, List, [], ◌++◌, Bool, true, false, not, ◌||◌, ◌==◌, if-true,
  if-false, length, u64, u32, none, some, ◌≡◌, refl, ap, sym, ◌∙◌, arith,
}
use sing_box_inbound_bench.Wire.{Error, read_full-append, crc32, crc32-lt}
use sing_box_inbound_bench.Workers
use sing_box_inbound_bench.Tcp.{write_header, op_download, flag_response}
use sing_box_inbound_bench.Tcp.Frames.{IsHeader, read-write}
use sing_box_inbound_bench.Tcp.Upload.{send}
use sing_box_inbound_bench.Tcp.Upload.Server.{conn}
use sing_box_inbound_bench.Tcp.Download.{
  block_frame, serve_download_blocks, Receiver, received, at_input, count_received, take_block,
  take_response, receive_round, continue, receive_blocks,
}

-- The blocks behind `completed` of them, `more` in number.
unfoldable pub blocks_stream : List ℕ → ℕ → ℕ → List ℕ
blocks_stream payload completed zero = []
blocks_stream payload completed (suc more) =
    write_header (block_frame payload (suc completed))
    ++ (payload ++ blocks_stream payload (suc completed) more)

u64_small : (n : ℕ) → n < 2 ^ 64 → u64 n ≡ n
u64_small n h = omega (arith, h)

goes_on_more : (n k : ℕ) → k < n → Workers.goes_on n k ≡ true
goes_on_more n k h = ground arith

goes_on_done : (n k : ℕ) → 0 < n → k ≡ n → Workers.goes_on n k ≡ false
goes_on_done n k h e = ground arith

stop_more : (n k : ℕ) → k < n → (not (Workers.goes_on n k) || false) ≡ false
stop_more n k h = ground arith

stop_done : (n k : ℕ) → 0 < n → k ≡ n → (not (Workers.goes_on n k) || false) ≡ true
stop_done n k h e = ground arith

-- The client behind `k` blocks of a payload.
abbrev pub receiver : List ℕ → ℕ → List ℕ → Error → List ℕ → Receiver
receiver payload k input e out = record {
  conn = conn input e out;
  operations = k;
  bytes_received = u64 (k * length payload);
}

module _ (payload : List ℕ) (small : length payload < 2 ^ 32) where
  block_frame-IsHeader : (k : ℕ) → k < 2 ^ 64 → IsHeader (block_frame payload k)
  block_frame-IsHeader k h = record {
    operation_u8 = omega arith;
    flags_u16 = omega arith;
    length_u32 = omega arith;
    sequence_u64 = h;
    checksum_u32 = crc32-lt payload;
  }

  matches :
      (k : ℕ)
      → suc k < 2 ^ 64
      → (not (op_download == op_download)
          || not (flag_response == flag_response)
          || not (u32 (length payload) == u32 (length payload))
          || not (suc k == u64 (k + 1))
          || not (crc32 payload == crc32 payload))
        ≡ false
  matches k h = ground arith

  counted :
      (k : ℕ) (rest : List ℕ) (e : Error) (out : List ℕ)
      → suc k < 2 ^ 64
      → received (u64 (k + 1)) (count_received (length payload) (receiver payload k rest e out))
        ≡ received (suc k) (receiver payload (suc k) rest e out)
  unfolding count_received
  counted k rest e out h = λ i.
      received (one i)
        (record { conn = conn rest e out; operations = one i; bytes_received = more i })
    where
      one : u64 (k + 1) ≡ suc k
      one = omega (arith, h)

      more : u64 (u64 (k * length payload) + length payload) ≡ u64 (suc k * length payload)
      more = omega arith

  receive_round_lem :
      (blocks k : ℕ) (rest : List ℕ) (e : Error) (out : List ℕ)
      → suc k < 2 ^ 64
      → receive_round blocks payload k (
          receiver payload k
            (write_header (block_frame payload (suc k)) ++ (payload ++ rest))
            e
            out)
        ≡ received (suc k) (receiver payload (suc k) rest e out)
  unfolding receive_round take_response take_block at_input
  receive_round_lem blocks k rest e out h =
      ap (take_response blocks payload k s) (
        read-write (block_frame payload (suc k)) (payload ++ rest) e
          (block_frame-IsHeader (suc k) h))
      ∙ if-false _ _ _ (matches k h)
      ∙ ap (take_block blocks payload k (receiver payload k (payload ++ rest) e out))
          (read_full-append (length payload) payload rest e refl)
      ∙ if-false _ _ _ intact
      ∙ counted k rest e out h
    where
      s : Receiver
      s = receiver payload k (write_header (block_frame payload (suc k)) ++ (payload ++ rest)) e out

      intact : not (crc32 payload == crc32 payload) ≡ false
      intact = ground arith

  regroup : (w xs rest : List ℕ) → (w ++ (payload ++ xs)) ++ rest ≡ w ++ (payload ++ (xs ++ rest))
  regroup w xs rest =
      append_assoc w (payload ++ xs) rest ∙ ap (λ ys. w ++ ys) (append_assoc payload xs rest)

  -- The client takes the blocks that are left, and stops behind the last.
  pub receive_blocks_lem :
      (more fuel k n : ℕ) (rest : List ℕ) (e : Error) (out : List ℕ)
      → k + more ≡ n
      → 0 < n
      → n < 2 ^ 64
      → more < fuel
      → receive_blocks fuel n payload
          (λ j. false)
          k
          (receiver payload k (blocks_stream payload k more ++ rest) e out)
        ≡ some (none, receiver payload n rest e out)
  unfolding receive_blocks blocks_stream
  receive_blocks_lem more zero k n rest e out h some_block bound enough = ground arith
  receive_blocks_lem zero (suc fuel) k n rest e out h some_block bound enough =
      let same : k ≡ n = omega (arith, h) in
      if-true _ _ _ (stop_done n k some_block same)
      ∙ ap (λ j. some (none, receiver payload j rest e out)) same
  receive_blocks_lem (suc more) (suc fuel) k n rest e out h some_block bound enough =
      if-false _ _ _ (stop_more n k (omega (arith, h)))
      ∙ ap
          (λ input.
            continue (receive_blocks fuel n payload (λ j. false))
              (receive_round n payload k (receiver payload k input e out)))
          (regroup (write_header (block_frame payload (suc k))) (blocks_stream payload (suc k) more)
            rest)
      ∙ ap (continue (receive_blocks fuel n payload (λ j. false))) (
          receive_round_lem n k (blocks_stream payload (suc k) more ++ rest) e out
            (omega (arith, h, bound)))
      ∙ receive_blocks_lem more fuel (suc k) n rest e out (omega (arith, h)) some_block bound
          (omega (arith, enough))

  pub serve_blocks_lem :
      (closed : Error → Bool) (more fuel k n : ℕ) (input : List ℕ) (e : Error) (out : List ℕ)
      → k + more ≡ n
      → 0 < n
      → n < 2 ^ 64
      → more < fuel
      → serve_download_blocks closed fuel n payload k (conn input e out)
        ≡ some (none, conn input e (out ++ blocks_stream payload k more))
  unfolding serve_download_blocks blocks_stream send
  serve_blocks_lem closed more zero k n input e out h some_block bound enough = ground arith
  serve_blocks_lem closed zero (suc fuel) k n input e out h some_block bound enough =
      if-false _ _ _ (goes_on_done n k some_block (omega (arith, h)))
      ∙ ap (λ xs. some (none, conn input e xs)) (sym (append-nil out))
  serve_blocks_lem closed (suc more) (suc fuel) k n input e out h some_block bound enough =
      if-true _ _ _ (goes_on_more n k (omega (arith, h)))
      ∙ ap
          (λ j.
            serve_download_blocks closed fuel n payload j
              (conn input e (out ++ (write_header (block_frame payload j) ++ payload))))
          next
      ∙ serve_blocks_lem closed more fuel (suc k) n input e
          (out ++ (write_header (block_frame payload (suc k)) ++ payload)) (omega (arith, h))
          some_block bound (omega (arith, enough))
      ∙ ap (λ xs. some (none, conn input e xs))
          (join_output (write_header (block_frame payload (suc k))))
    where
      next : u64 (k + 1) ≡ suc k
      next = omega (arith, h, bound)

      join_output :
          (w : List ℕ)
          → (out ++ (w ++ payload)) ++ blocks_stream payload (suc k) more
            ≡ out ++ (w ++ (payload ++ blocks_stream payload (suc k) more))
      join_output w =
          append_assoc out (w ++ payload) (blocks_stream payload (suc k) more)
          ∙ ap (λ ys. out ++ ys) (append_assoc w payload (blocks_stream payload (suc k) more))
