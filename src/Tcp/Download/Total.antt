-- ===== src/Tcp/Download/Total.antt =====
-- runDownload of internal/workload/tcp/tcp.go returns on every input.
use sing_box_inbound_bench.Base.{
  ℕ, zero, suc, ◌<◌, List, Bool, not, ◌||◌, if-true, if-false, length, Option, none, some, ◌≡◌,
  refl, ap, ◌∙◌, arith, Bool-cases, inl, inr,
}
use sing_box_inbound_bench.Wire.{Error, Stream}
use sing_box_inbound_bench.Workers
use sing_box_inbound_bench.Tcp.{write_header}
use sing_box_inbound_bench.Tcp.Upload.{Conn, send, is_broken}
use sing_box_inbound_bench.Tcp.Download.{
  Receiver, Received, ended, received, receive_round, continue, receive_blocks, run_download,
  after_control, download_control,
}
use sing_box_inbound_bench.Tcp.Download.Rounds.{receive_round-GoesOn, Block-length}

receive_blocks-total :
    (fuel blocks : ℕ) (expected : List ℕ) (stop : ℕ → Bool) (completed : ℕ) (s : Receiver)
    → length s.conn.input.bytes < fuel
    → (r : Option Error × Receiver) × (receive_blocks fuel blocks expected stop completed s
        ≡ some r)
unfolding receive_blocks
receive_blocks-total zero blocks expected stop completed s h = absurd (omega arith)
receive_blocks-total (suc fuel) blocks expected stop completed s h =
    elim (Bool-cases (not (Workers.goes_on blocks completed) || stop completed)) [
      | inl over ↦ ((none, s), if-true _ _ _ over)
      | inr more ↦
          let r =
            go (receive_blocks-total fuel blocks expected stop)
              (receive_round blocks expected completed s) refl in
          (r.0, if-false _ _ _ more ∙ r.1)
    ]
  where
    go :
        ((next : ℕ) (t : Receiver)
          → length t.conn.input.bytes < fuel
          → (r : Option Error × Receiver) × (receive_blocks fuel blocks expected stop next t
              ≡ some r))
        → (round : Received) → receive_round blocks expected completed s ≡ round
        → (r : Option Error × Receiver) × (continue (receive_blocks fuel blocks expected stop) round
            ≡ some r)
    go rest (ended e t) p = ((e, t), refl)
    go rest (received next t) p =
        let first = receive_round-GoesOn blocks expected completed s next t p in
        rest next t (omega (arith, h, Block-length first.block))

pub send-input : (bytes : List ℕ) (c : Conn) → (send bytes c).1.input ≡ c.input
unfolding send
send-input bytes c = elim (Bool-cases (is_broken c.breaks_after)) [
  | inl broken ↦ ap (λ (r : Option Error × Conn). r.1.input) (if-true _ _ _ broken)
  | inr whole ↦ ap (λ (r : Option Error × Conn). r.1.input) (if-false _ _ _ whole)
]

after_control-total :
    (blocks : ℕ) (expected : List ℕ) (stop : ℕ → Bool) (s : Receiver) (sent : Option Error × Conn)
    → sent.1.input ≡ s.conn.input
    → (r : Option Error × Receiver) × (after_control blocks expected stop s sent ≡ some r)
after_control-total blocks expected stop s (some e, c) h = ((some e, record s { conn = c }), refl)
after_control-total blocks expected stop s (none, c) h =
    let same = ap (λ (i : Stream). length i.bytes) h in
    receive_blocks-total (suc (length s.conn.input.bytes)) blocks expected stop 0
      (record s { conn = c }) (omega (arith, same))

-- runDownload returns on every input: the fuel is enough.
pub run_download-total :
    (payload_size blocks worker : ℕ) (stop : ℕ → Bool) (s : Receiver)
    → (r : Option Error × Receiver) × (run_download payload_size blocks worker stop s ≡ some r)
unfolding run_download
run_download-total payload_size blocks worker stop s =
    after_control-total blocks _ stop s
      (send (write_header (download_control payload_size blocks worker)) s.conn)
      (send-input _ s.conn)
