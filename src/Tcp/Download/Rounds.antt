-- ===== src/Tcp/Download/Rounds.antt =====
-- What a round of the client of internal/workload/tcp/tcp.go has taken, where it goes on, and when it ends
-- without an error.
use sing_box_inbound_bench.Base.{
  ℕ, ◌+◌, ◌<◌, List, Bool, false, not, ◌||◌, ◌==◌, if-true, if-false, length, u64, u32, Option,
  none, some, ◌≡◌, ◌≢◌, refl, ap, sym, ◌∙◌, arith, Bool-cases, inl, inr,
}
use sing_box_inbound_bench.Wire.{Error, Result, ok, err, Stream, read_full, read_full-length, crc32}
use sing_box_inbound_bench.Tcp.{FrameHeader, read_header, op_download, flag_response}
use sing_box_inbound_bench.Tcp.Upload.Rounds.{read_header-length}
use sing_box_inbound_bench.Tcp.Download.{
  Receiver, ended, received, end_of_read, at_input, count_received, take_block, take_response,
  receive_round,
}

-- A block that was received: its header in order with the expected fields, and an intact payload.
pub record Block (expected : List ℕ) (completed : ℕ) (s t : Stream) : Type 0 where
  pub response : FrameHeader
  pub mid : Stream
  pub payload : List ℕ
  pub header_read : read_header s ≡ ok (response, mid)
  pub is_download : response.operation ≡ op_download
  pub is_response : response.flags ≡ flag_response
  pub of_length : response.length ≡ u32 (length expected)
  pub in_order : response.sequence ≡ u64 (completed + 1)
  pub announced : response.checksum ≡ crc32 expected
  pub payload_read : read_full (length expected) mid ≡ ok (payload, t)
  pub intact : crc32 payload ≡ crc32 expected

-- A round that goes on.
pub record GoesOn (expected : List ℕ) (completed next : ℕ) (s t : Receiver) : Type 0 where
  pub block : Block expected completed s.conn.input t.conn.input
  pub counted : next ≡ u64 (completed + 1)
  pub operations : t.operations ≡ u64 (s.operations + 1)

pub ended_ne : (e : Option Error) (s : Receiver) (n : ℕ) (t : Receiver) → ended e s ≢ received n t
ended_ne e s n t = ground arith

received_inj : (a b : ℕ) (s t : Receiver) → received a s ≡ received b t → (a ≡ b) × (s ≡ t)
received_inj a b s t h = (cc, cc)

same_of_not : (a b : ℕ) → not (a == b) ≡ false → a ≡ b
same_of_not a b h = ground arith

-- Of five tests that all pass, each passes.
all_pass :
    (a b c d e : Bool)
    → (a || b || c || d || e) ≡ false
    → (a ≡ false) × (b ≡ false) × (c ≡ false) × (d ≡ false) × (e ≡ false)
all_pass a b c d e h = (ground arith, ground arith, ground arith, ground arith, ground arith)

module _ (blocks : ℕ) (expected : List ℕ) (completed : ℕ) (s : Receiver) where
  take_block-received :
      (mid : Stream) (r : Result (List ℕ × Stream)) (next : ℕ) (t : Receiver)
      → take_block blocks expected completed (at_input mid s) r ≡ received next t
      → (payload : List ℕ) × (r ≡ ok (payload, t.conn.input))
        × (crc32 payload ≡ crc32 expected)
        × (next ≡ u64 (completed + 1))
        × (t.operations ≡ u64 (s.operations + 1))
  unfolding take_block at_input count_received
  take_block-received mid (err e) next t h = absurd (ended_ne _ _ next t h)
  take_block-received mid (ok (payload, input)) next t h =
      elim (Bool-cases (not (crc32 payload == crc32 expected))) [
        | inl bad ↦ absurd (ended_ne _ _ next t (sym (if-true _ _ _ bad) ∙ h))
        | inr good ↦
            let inj = received_inj _ next _ t (sym (if-false _ _ _ good) ∙ h) in
            (
              payload,
              ap (λ (u : Receiver). ok (payload, u.conn.input)) inj.1,
              same_of_not _ _ good,
              sym inj.0,
              sym (ap (λ (u : Receiver). u.operations) inj.1),
            )
      ]

  take_response-received :
      (r : Result (FrameHeader × Stream)) (next : ℕ) (t : Receiver)
      → read_header s.conn.input ≡ r
      → take_response blocks expected completed s r ≡ received next t
      → GoesOn expected completed next s t
  unfolding take_response
  take_response-received (err e) next t p h = absurd (ended_ne _ _ next t h)
  take_response-received (ok (response, mid)) next t p h = elim (Bool-cases mismatch) [
    | inl bad ↦ absurd (ended_ne _ _ next t (sym (if-true _ _ _ bad) ∙ h))
    | inr good ↦
        let (operation, flags, size, order, checksum) = all_pass _ _ _ _ _ good in
        let b = take_block-received mid _ next t (sym (if-false _ _ _ good) ∙ h) in
        record {
          block = record {
            response = response;
            mid = mid;
            payload = b.0;
            header_read = p;
            is_download = same_of_not _ _ operation;
            is_response = same_of_not _ _ flags;
            of_length = same_of_not _ _ size;
            in_order = same_of_not _ _ order;
            announced = same_of_not _ _ checksum;
            payload_read = b.1;
            intact = b.2;
          };
          counted = b.3;
          operations = b.4;
        }
  ]
    where
      mismatch : Bool
      mismatch =
          not (response.operation == op_download)
          || not (response.flags == flag_response)
          || not (response.length == u32 (length expected))
          || not (response.sequence == u64 (completed + 1))
          || not (response.checksum == crc32 expected)

  pub receive_round-GoesOn :
      (next : ℕ) (t : Receiver)
      → receive_round blocks expected completed s ≡ received next t
      → GoesOn expected completed next s t
  unfolding receive_round
  receive_round-GoesOn next t h = take_response-received (read_header s.conn.input) next t refl h

pub Block-length :
    {expected : List ℕ} {k : ℕ} {s t : Stream}
    → Block expected k s t
    → length t.bytes < length s.bytes
Block-length {expected} {s = s} {t = t} b = omega (
  arith,
  read_header-length s b.mid b.response b.header_read,
  read_full-length (length expected) b.mid t b.payload b.payload_read,
)

-- The blocks that were received from `s` behind some number of others, up to another with `t` left.
pub data Blocks (expected : List ℕ) : ℕ → Stream → ℕ → Stream → Type 0 where
  none_left : {k : ℕ} {s : Stream} → Blocks expected k s k s
  block :
      {k n : ℕ} {s m t : Stream}
      → Block expected k s m
      → Blocks expected (u64 (k + 1)) m n t
      → Blocks expected k s n t

ended_none_inj : (e : Option Error) (s t : Receiver) → ended e s ≡ ended none t → e ≡ none
ended_none_inj e s t h = cc

received_ne : (n : ℕ) (s t : Receiver) (e : Option Error) → received n s ≢ ended e t
received_ne n s t e = ground arith

pub some_ne : (e : Error) → ◌≢◌ {A = Option Error} (some e) none
some_ne e = ground arith

quiet_end : (blocks : ℕ) (e : Error) → end_of_read blocks e ≡ none → blocks ≡ 0
unfolding end_of_read
quiet_end blocks e h = ground arith

-- A round ends without an error only where there is no number of blocks.
module _ (blocks : ℕ) (expected : List ℕ) (completed : ℕ) where
  take_block_ended :
      (s t : Receiver) (r : Result (List ℕ × Stream))
      → take_block blocks expected completed s r ≡ ended none t
      → blocks ≡ 0
  unfolding take_block
  take_block_ended s t (err e) h = quiet_end blocks e (ended_none_inj _ s t h)
  take_block_ended s t (ok (payload, input)) h =
      elim (Bool-cases (not (crc32 payload == crc32 expected))) [
        | inl bad ↦ absurd (some_ne _ (ended_none_inj _ _ t (sym (if-true _ _ _ bad) ∙ h)))
        | inr good ↦ absurd (received_ne _ _ t none (sym (if-false _ _ _ good) ∙ h))
      ]

  take_response_ended :
      (s t : Receiver) (r : Result (FrameHeader × Stream))
      → take_response blocks expected completed s r ≡ ended none t
      → blocks ≡ 0
  unfolding take_response
  take_response_ended s t (err e) h = quiet_end blocks e (ended_none_inj _ s t h)
  take_response_ended s t (ok (response, mid)) h = elim (Bool-cases mismatch) [
    | inl bad ↦ absurd (some_ne _ (ended_none_inj _ _ t (sym (if-true _ _ _ bad) ∙ h)))
    | inr good ↦ take_block_ended (at_input mid s) t _ (sym (if-false _ _ _ good) ∙ h)
  ]
    where
      mismatch : Bool
      mismatch =
          not (response.operation == op_download)
          || not (response.flags == flag_response)
          || not (response.length == u32 (length expected))
          || not (response.sequence == u64 (completed + 1))
          || not (response.checksum == crc32 expected)

  pub receive_round_ended :
      (s t : Receiver) → receive_round blocks expected completed s ≡ ended none t → blocks ≡ 0
  unfolding receive_round
  receive_round_ended s t h = take_response_ended s t (read_header s.conn.input) h
