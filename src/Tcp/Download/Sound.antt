-- ===== src/Tcp/Download/Sound.antt =====
-- What a client of the download of internal/workload/tcp/tcp.go may conclude where runDownload ends
-- without an error.
use sing_box_inbound_bench.Base.{
  ℕ, zero, suc, ◌+◌, ◌^◌, ◌<◌, ◌≤◌, List, true, false, not, ◌||◌, if-true, if-false, length, u64,
  Option, none, some, ◌≡◌, refl, ap, sym, ◌∙◌, subst, arith, Bool-cases, inl, inr,
}
use sing_box_inbound_bench.Wire.{Error}
use sing_box_inbound_bench.Workers
use sing_box_inbound_bench.Tcp.{write_header}
use sing_box_inbound_bench.Tcp.Upload.{Conn, send}
use sing_box_inbound_bench.Tcp.Download.{
  Receiver, Received, ended, received, receive_round, continue, receive_blocks, run_download,
  after_control, download_control, fill_payload, checksum_seed,
}
use sing_box_inbound_bench.Tcp.Download.Rounds.{
  Blocks, none_left, block, receive_round-GoesOn, receive_round_ended, some_ne,
}
use sing_box_inbound_bench.Tcp.Download.Total.{send-input}

-- What a download of a number of blocks has taken where it ended without an error.
abbrev pub Complete : ℕ → List ℕ → ℕ → Receiver → Receiver → Type 0
Complete blocks expected completed s t =
    Blocks expected completed s.conn.input blocks t.conn.input × (t.operations ≡ blocks)

some_inj :
    (e : Option Error) (s t : Receiver)
    → ◌≡◌ {A = Option (Option Error × Receiver)} (some (e, s)) (some (none, t))
    → (e ≡ none) × (s ≡ t)
some_inj e s t h = (cc, cc)

at_last :
    (blocks completed : ℕ)
    → 0 < blocks
    → completed ≤ blocks
    → (not (Workers.goes_on blocks completed) || false) ≡ true
    → completed ≡ blocks
at_last blocks completed h k e = ground arith

not_last :
    (blocks completed : ℕ)
    → (not (Workers.goes_on blocks completed) || false) ≡ false
    → 0 < blocks
    → completed < blocks
not_last blocks completed h k = ground arith

module _ (blocks : ℕ) (expected : List ℕ) (some_block : 0 < blocks) (bound : blocks < 2 ^ 64) where
  nothing_more :
      (completed : ℕ) (s t : Receiver)
      → s.operations ≡ completed
      → completed ≡ blocks
      → s ≡ t
      → Complete blocks expected completed s t
  nothing_more completed s t h e same =
      subst (λ u. Complete blocks expected completed s u) same
        (subst (λ n. Blocks expected completed s.conn.input n s.conn.input) e none_left, h ∙ e)

  receive_blocks-Complete :
      (fuel completed : ℕ) (s t : Receiver)
      → s.operations ≡ completed
      → completed ≤ blocks
      → receive_blocks fuel blocks expected (λ j. false) completed s ≡ some (none, t)
      → Complete blocks expected completed s t
  unfolding receive_blocks
  receive_blocks-Complete zero completed s t h k e = ground arith
  receive_blocks-Complete (suc fuel) completed s t h k e =
      elim (Bool-cases (not (Workers.goes_on blocks completed) || false)) [
        | inl over ↦
            nothing_more completed s t h (at_last blocks completed some_block k over)
              (some_inj _ s t (sym (if-true _ _ _ over) ∙ e)).1
        | inr more ↦
            go (receive_blocks-Complete fuel) (not_last blocks completed more some_block)
              (receive_round blocks expected completed s) refl (sym (if-false _ _ _ more) ∙ e)
      ]
    where
      go :
          ((next : ℕ) (u v : Receiver)
            → u.operations ≡ next
            → next ≤ blocks
            → receive_blocks fuel blocks expected (λ j. false) next u ≡ some (none, v)
            → Complete blocks expected next u v)
          → completed < blocks
          → (round : Received) → receive_round blocks expected completed s ≡ round
          → continue (receive_blocks fuel blocks expected (λ j. false)) round ≡ some (none, t)
          → Complete blocks expected completed s t
      go rest below (ended e u) p q =
          let quiet = ap (λ x. ended x u) (some_inj e u t q).0 in
          let none_asked = receive_round_ended blocks expected completed s u (p ∙ quiet) in
          absurd (omega (arith, none_asked, some_block))
      go rest below (received next u) p q =
          let first = receive_round-GoesOn blocks expected completed s next u p in
          let counted = first.operations ∙ ap (λ n. u64 (n + 1)) h ∙ sym first.counted in
          let later = rest next u t counted (omega (arith, first.counted, below, bound)) q in
          (
            block first.block (
                subst (λ n. Blocks expected n u.conn.input blocks t.conn.input) first.counted
                  later.0),
            later.1,
          )

  after_control-Complete :
      (s t : Receiver) (sent : Option Error × Conn)
      → s.operations ≡ 0
      → sent.1.input ≡ s.conn.input
      → after_control blocks expected (λ j. false) s sent ≡ some (none, t)
      → Complete blocks expected 0 s t
  after_control-Complete s t (some e, c) h k q = absurd (some_ne e (some_inj (some e) _ t q).0)
  after_control-Complete s t (none, c) h k q =
      let all =
        receive_blocks-Complete (suc (length s.conn.input.bytes)) 0 (record s { conn = c }) t h
          (omega arith) q in
      (subst (λ i. Blocks expected 0 i blocks t.conn.input) k all.0, all.1)

-- A download of a number of blocks by a client that is not stopped, which ends without an error, was a
-- complete one: the client has read that number of blocks, each with its header in order and an intact
-- payload, and has counted as many operations.
pub run_download-Complete :
    (size blocks worker : ℕ) (s t : Receiver)
    → 0 < blocks
    → blocks < 2 ^ 64
    → s.operations ≡ 0
    → run_download size blocks worker (λ j. false) s ≡ some (none, t)
    → Complete blocks
        (fill_payload size (checksum_seed (download_control size blocks worker)))
        0
        s
        t
unfolding run_download
run_download-Complete size blocks worker s t some_block bound fresh h =
    after_control-Complete blocks _ some_block bound s t
      (send (write_header (download_control size blocks worker)) s.conn) fresh (send-input _ s.conn)
      h
