-- ===== src/Tcp/Upload/Rounds.antt =====
-- What one round of the server of internal/workload/tcp/tcp.go has taken, where it goes on.
use sing_box_inbound_bench.Base.{
  ℕ, ◌+◌, ◌≤◌, List, Bool, true, not, ◌==◌, ==_iff, Bool-cases, if-true, if-false, if◌then◌else◌,
  length, u64, ◌≡◌, refl, ap, sym, ◌∙◌, ◌⊎◌, inl, inr, arith,
}
use sing_box_inbound_bench.Wire.{Result, Stream, ok, err, read_full, read_full-length, crc32}
use sing_box_inbound_bench.Tcp.{
  FrameHeader, op_upload_data, op_upload_done, read_header, parse_read,
}
use sing_box_inbound_bench.Tcp.Upload.{
  Conn, send, upload_ack_interval, write_upload_acknowledgement, Round, goes_on, finish_upload,
  count_block, take_payload, take_data, take_frame, serve_round,
}

pub read_header-length :
    (s t : Stream) (h : FrameHeader)
    → read_header s ≡ ok (h, t)
    → length t.bytes + 24 ≡ length s.bytes
unfolding read_header
read_header-length s t h e = go (read_full 24 s) refl e
  where
    go :
        (r : Result (List ℕ × Stream))
        → read_full 24 s ≡ r
        → parse_read r ≡ ok (h, t)
        → length t.bytes + 24 ≡ length s.bytes
    go (ok (bs, u)) p q = ground (arith, read_full-length 24 s u bs p)
    go (err x) p q = cc

count_block-input :
    (interval k k' : ℕ) (c c' : Conn)
    → count_block interval k c ≡ goes_on k' c'
    → (c'.input ≡ c.input) × (k' ≡ k)
unfolding count_block write_upload_acknowledgement send
count_block-input interval k k' c c' h = ground arith

-- One block that the server took behind `k` others: its frame and its payload, read from `s`, with
-- `t` left, and the tests that they passed.
pub record Block (control : FrameHeader) (k : ℕ) (s t : Stream) : Type 0 where
  pub frame : FrameHeader
  pub mid : Stream
  pub payload : List ℕ
  pub header_read : read_header s ≡ ok (frame, mid)
  pub payload_read : read_full control.length mid ≡ ok (payload, t)
  pub is_data : frame.operation ≡ op_upload_data
  pub same_length : frame.length ≡ control.length
  pub in_order : frame.sequence ≡ u64 (k + 1)
  pub intact : crc32 payload ≡ control.checksum
  pub in_count : (control.sequence ≡ 0) ⊎ (u64 (k + 1) ≤ control.sequence)

-- The end of an upload of `k` blocks, by its frame.
pub record Finish (control : FrameHeader) (k : ℕ) (s t : Stream) : Type 0 where
  pub frame : FrameHeader
  pub header_read : read_header s ≡ ok (frame, t)
  pub is_done : frame.operation ≡ op_upload_done
  pub announced : frame.sequence ≡ k
  pub complete : (control.sequence ≡ 0) ⊎ (k ≡ control.sequence)

-- The blocks that were taken from `s` behind `j` others, up to `k` with `t` left.
pub data Blocks (control : FrameHeader) : ℕ → Stream → ℕ → Stream → Type 0 where
  none_left : {j : ℕ} {s : Stream} → Blocks control j s j s
  block :
      {j k : ℕ} {s t u : Stream}
      → Block control j s t
      → Blocks control (u64 (j + 1)) t k u
      → Blocks control j s k u

take_payload-goes_on :
    (control frame : FrameHeader) (k k' : ℕ) (c c' : Conn) (r : Result (List ℕ × Stream))
    → take_payload control k frame c r ≡ goes_on k' c'
    → (payload : List ℕ) × (r ≡ ok (payload, c'.input))
      × (crc32 payload ≡ frame.checksum)
      × (k' ≡ u64 (k + 1))
unfolding take_payload
take_payload-goes_on control frame k k' c c' (err e) h = cc
take_payload-goes_on control frame k k' c c' (ok (payload, input)) h =
    elim (Bool-cases (crc32 payload == frame.checksum)) [
      | inl same ↦
          let counted =
            count_block-input (upload_ack_interval control.length) (u64 (k + 1)) k' _ c'
              (unless_true _ _ _ same ∙ h) in
          (payload, ap (λ s. ok (payload, s)) (sym counted.0), (==_iff _ _).0 same, counted.1)
      | inr other ↦ ground arith
    ]
  where
    unless_true : (b : Bool) (x y : Round) → b ≡ true → y ≡ (if not b then x else y)
    unless_true b x y e = ground arith

take_data-tests :
    (control frame : FrameHeader) (k k' : ℕ) (c c' : Conn)
    → take_data control k frame c ≡ goes_on k' c'
    → (frame.operation ≡ op_upload_data)
      × (frame.length ≡ control.length)
      × (frame.sequence ≡ u64 (k + 1))
      × (frame.checksum ≡ control.checksum)
      × ((control.sequence ≡ 0) ⊎ (frame.sequence ≤ control.sequence))
      × (take_payload control k frame c (read_full control.length c.input) ≡ goes_on k' c')
unfolding take_data
take_data-tests control frame k k' c c' h = ground arith

take_data-goes_on :
    (control frame : FrameHeader) (k k' : ℕ) (s : Stream) (c c' : Conn)
    → read_header s ≡ ok (frame, c.input)
    → take_data control k frame c ≡ goes_on k' c'
    → Block control k s c'.input × (k' ≡ u64 (k + 1))
take_data-goes_on control frame k k' s c c' read h =
    let (is_data, same_length, in_order, same_checksum, in_count, taken) =
      take_data-tests control frame k k' c c' h in
    let (payload, payload_read, intact, counted) =
      take_payload-goes_on control frame k k' c c' (read_full control.length c.input) taken in
    (
      record {
        frame = frame;
        mid = c.input;
        payload = payload;
        header_read = read;
        payload_read = payload_read;
        is_data = is_data;
        same_length = same_length;
        in_order = in_order;
        intact = intact ∙ same_checksum;
        in_count = in_count' in_order in_count;
      },
      counted,
    )
  where
    in_count' :
        frame.sequence ≡ u64 (k + 1)
        → (control.sequence ≡ 0) ⊎ (frame.sequence ≤ control.sequence)
        → (control.sequence ≡ 0) ⊎ (u64 (k + 1) ≤ control.sequence)
    in_count' e (inl z) = inl z
    in_count' e (inr z) = inr (omega arith)

finish_upload-ends :
    (control frame : FrameHeader) (k k' : ℕ) (c c' : Conn)
    → finish_upload control k frame c ≡ goes_on k' c'
    → ⊥
unfolding finish_upload
finish_upload-ends control frame k k' c c' h = ground arith

take_frame-goes_on :
    (control : FrameHeader) (k k' : ℕ) (c c' : Conn) (r : Result (FrameHeader × Stream))
    → read_header c.input ≡ r
    → take_frame control k c r ≡ goes_on k' c'
    → Block control k c.input c'.input × (k' ≡ u64 (k + 1))
unfolding take_frame
take_frame-goes_on control k k' c c' (err e) read h = cc
take_frame-goes_on control k k' c c' (ok (frame, input)) read h =
    elim (Bool-cases (frame.operation == op_upload_done)) [
      | inl done ↦
          absurd (finish_upload-ends control frame k k' c₁ c' (sym (if-true _ _ _ done) ∙ h))
      | inr more ↦
          take_data-goes_on control frame k k' c.input c₁ c' read (sym (if-false _ _ _ more) ∙ h)
    ]
  where
    c₁ : Conn
    c₁ = record c { input = input }

-- A round that goes on has taken one more block.
pub serve_round-goes_on :
    (control : FrameHeader) (k k' : ℕ) (c c' : Conn)
    → serve_round control k c ≡ goes_on k' c'
    → Block control k c.input c'.input × (k' ≡ u64 (k + 1))
unfolding serve_round
serve_round-goes_on control k k' c c' h =
    take_frame-goes_on control k k' c c' (read_header c.input) refl h
