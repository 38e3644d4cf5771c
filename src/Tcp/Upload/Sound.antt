-- ===== src/Tcp/Upload/Sound.antt =====
-- What the server of internal/workload/tcp/tcp.go has seen when it accepts an upload, and that its
-- loop ends on every input.
use sing_box_inbound_bench.Base.{
  ℕ, zero, suc, ◌+◌, ◌<◌, List, ◌++◌, ◌==◌, ==_iff, Bool-cases, if-true, if-false, length, u64,
  Option, none, some, ◌≡◌, refl, ap, sym, subst, ◌∙◌, ◌⊎◌, inl, inr, arith,
}
use mathlib.Core.Option.{some-injective}
use sing_box_inbound_bench.Wire.{Error, Result, Stream, ok, err, read_full, read_full-length}
use sing_box_inbound_bench.Tcp.{FrameHeader, op_upload_done, read_header, write_header}
use sing_box_inbound_bench.Tcp.Upload.{
  Conn, send, upload_ack_interval, acknowledgement, write_upload_acknowledgement, Round, goes_on,
  returns, finish_upload, count_block, take_payload, take_data, take_frame, serve_round, resume,
  serve_blocks, serve_upload,
}
use sing_box_inbound_bench.Tcp.Upload.Rounds.{
  read_header-length, serve_round-goes_on, Block, Finish, Blocks, none_left, block,
}

count_block-fails :
    (interval k : ℕ) (c c' : Conn) → count_block interval k c ≡ returns (none, c') → ⊥
unfolding count_block write_upload_acknowledgement send
count_block-fails interval k c c' h = ground arith

take_payload-fails :
    (control frame : FrameHeader) (k : ℕ) (c c' : Conn) (r : Result (List ℕ × Stream))
    → take_payload control k frame c r ≡ returns (none, c')
    → ⊥
unfolding take_payload
take_payload-fails control frame k c c' (err e) h = cc
take_payload-fails control frame k c c' (ok (payload, input)) h = ground (
  arith,
  count_block-fails (upload_ack_interval control.length) (u64 (k + 1)) (record c { input = input })
      c',
)

take_data-fails :
    (control frame : FrameHeader) (k : ℕ) (c c' : Conn)
    → take_data control k frame c ≡ returns (none, c')
    → ⊥
unfolding take_data
take_data-fails control frame k c c' h =
    ground (arith, take_payload-fails control frame k c c' (read_full control.length c.input))

-- The final acknowledgement was written behind what the connection had sent.
abbrev Answered : ℕ → Conn → Conn → Type 0
Answered k c c' = c'.output ≡ c.output ++ write_header (acknowledgement k)

finish_upload-accepts :
    (control frame : FrameHeader) (k : ℕ) (c c' : Conn)
    → finish_upload control k frame c ≡ returns (none, c')
    → (frame.sequence ≡ k)
      × ((control.sequence ≡ 0) ⊎ (k ≡ control.sequence))
      × (c'.input ≡ c.input)
      × Answered k c c'
unfolding finish_upload write_upload_acknowledgement send
finish_upload-accepts control frame k c c' h = ground arith

take_frame-accepts :
    (control : FrameHeader) (k : ℕ) (c c' : Conn) (r : Result (FrameHeader × Stream))
    → read_header c.input ≡ r
    → take_frame control k c r ≡ returns (none, c')
    → Finish control k c.input c'.input × Answered k c c'
unfolding take_frame
take_frame-accepts control k c c' (err e) read h = cc
take_frame-accepts control k c c' (ok (frame, input)) read h =
    elim (Bool-cases (frame.operation == op_upload_done)) [
      | inl done ↦
          let (announced, complete, same, answered) =
            finish_upload-accepts control frame k c₁ c' (sym (if-true _ _ _ done) ∙ h) in
          (
            record {
              frame = frame;
              header_read = read ∙ ap (λ s. ok (frame, s)) (sym same);
              is_done = (==_iff _ _).0 done;
              announced = announced;
              complete = complete;
            },
            answered,
          )
      | inr more ↦ absurd (take_data-fails control frame k c₁ c' (sym (if-false _ _ _ more) ∙ h))
    ]
  where
    c₁ : Conn
    c₁ = record c { input = input }

-- What the server knows of the upload that it accepted, of `n` blocks behind `k` others.
pub record Accepted (control : FrameHeader) (k : ℕ) (c c' : Conn) : Type 0 where
  pub n : ℕ
  pub mid : Stream
  pub sent : List ℕ
  pub taken : Blocks control k c.input n mid
  pub finished : Finish control n mid c'.input
  pub answered : c'.output ≡ sent ++ write_header (acknowledgement n)

serve_round-accepts :
    (control : FrameHeader) (k : ℕ) (c c' : Conn)
    → serve_round control k c ≡ returns (none, c')
    → Accepted control k c c'
unfolding serve_round
serve_round-accepts control k c c' h =
    let (finished, answered) = take_frame-accepts control k c c' (read_header c.input) refl h in
    record {
      n = k;
      mid = c.input;
      sent = c.output;
      taken = none_left;
      finished = finished;
      answered = answered;
    }

serve_blocks-Accepted :
    (fuel : ℕ) (control : FrameHeader) (k : ℕ) (c c' : Conn)
    → serve_blocks fuel control k c ≡ some (none, c')
    → Accepted control k c c'
unfolding serve_blocks
serve_blocks-Accepted zero control k c c' h = cc
serve_blocks-Accepted (suc fuel) control k c c' h =
    go (serve_blocks-Accepted fuel control) (serve_round control k c) refl h
  where
    go :
        ((k' : ℕ) (d c' : Conn)
          → serve_blocks fuel control k' d ≡ some (none, c')
          → Accepted control k' d c')
        → (r : Round) → serve_round control k c ≡ r
        → resume (serve_blocks fuel control) r ≡ some (none, c')
        → Accepted control k c c'
    go rest (returns p) round h =
        serve_round-accepts control k c c' (round ∙ ap returns (some-injective _ _ h))
    go rest (goes_on k' d) round h =
        let (first, counted) = serve_round-goes_on control k k' c d round in
        let later = rest k' d c' h in
        record {
          n = later.n;
          mid = later.mid;
          sent = later.sent;
          taken =
              block first
                (subst (λ j. Blocks control j d.input later.n later.mid) counted later.taken);
          finished = later.finished;
          answered = later.answered;
        }

-- An upload that the server ends without an error was one: from the stream it took the blocks 1 to
-- `n`, each with its header in order, of the announced length and checksum and within the requested
-- number, then a finish frame for `n`, the requested number if there was one; and the last thing it
-- sent is the acknowledgement of `n`.
pub serve_upload-Accepted :
    (control : FrameHeader) (c c' : Conn)
    → serve_upload control c ≡ some (none, c')
    → Accepted control 0 c c'
unfolding serve_upload
serve_upload-Accepted control c c' h = serve_blocks-Accepted _ control 0 c c' h

Block-length :
    {control : FrameHeader} {k : ℕ} {s t : Stream}
    → Block control k s t
    → length t.bytes < length s.bytes
Block-length {control = control} {s = s} {t = t} b = omega (
  arith,
  read_header-length s b.mid b.frame b.header_read,
  read_full-length control.length b.mid t b.payload b.payload_read,
)

serve_blocks-total :
    (fuel : ℕ) (control : FrameHeader) (k : ℕ) (c : Conn)
    → length c.input.bytes < fuel
    → (r : Option Error × Conn) × (serve_blocks fuel control k c ≡ some r)
unfolding serve_blocks
serve_blocks-total zero control k c h = absurd (omega arith)
serve_blocks-total (suc fuel) control k c h =
    go (serve_blocks-total fuel control) (serve_round control k c) refl
  where
    go :
        ((k' : ℕ) (d : Conn)
          → length d.input.bytes < fuel
          → (r : Option Error × Conn) × (serve_blocks fuel control k' d ≡ some r))
        → (round : Round) → serve_round control k c ≡ round
        → (r : Option Error × Conn) × (resume (serve_blocks fuel control) round ≡ some r)
    go rest (returns r) e = (r, refl)
    go rest (goes_on k' d) e =
        let (first, counted) = serve_round-goes_on control k k' c d e in
        rest k' d (omega (arith, Block-length first))

-- On every input the server's loop returns: the fuel is enough.
pub serve_upload-total :
    (control : FrameHeader) (c : Conn)
    → (r : Option Error × Conn) × (serve_upload control c ≡ some r)
unfolding serve_upload
serve_upload-total control c = serve_blocks-total _ control 0 c (omega arith)
