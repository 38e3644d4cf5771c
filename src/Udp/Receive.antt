-- ===== src/Udp/Receive.antt =====
-- internal/workload/udp/udp.go: the receiver of a flow of the PPS mode, `receivePPSFlow`. What a read
-- and the clock give to a round is its Reception; the sender's table of times is the function that the
-- receiver reads at that moment.
pub mod Distinct
use sing_box_inbound_bench.Base.{
  ℕ, zero, suc, ◌+◌, ◌-◌, bit_and, List, [], ◌∷◌, ◌++◌, Bool, true, false, not, ◌&&◌, ◌||◌, ◌==◌,
  ltb, leb, if◌then◌else◌, length, get_or, set, u32, u64, Option, none, some,
}
use sing_box_inbound_bench.Wire.{Error}
use sing_box_inbound_bench.Udp.{Header, header_size, flag_response, parse}
use sing_box_inbound_bench.Udp.Echo.{Counters}

pub data ReadError : Type 0 where
  timeout closed : ReadError
  other : Error → ReadError

pub data Read : Type 0 where
  got : List ℕ → Read
  failed : ReadError → Read

pub record Reception : Type 0 where
  pub read : Read
  pub sent_at : ℕ → ℕ
  pub now : ℕ

-- The fields of ppsFlow that the receiver changes, with what it adds to the counters.
pub record PpsFlow : Type 0 where
  pub seen : List Bool
  pub latencies : List ℕ
  pub previous : ℕ
  pub received : ℕ
  pub counters : Counters

-- A round: the receiver returns, with an error or without one, or goes on.
pub data Round : Type 0 where
  returns : Option Error → PpsFlow → Round
  goes_on : PpsFlow → Round

abbrev pub end_of_read : ReadError → Option Error
end_of_read timeout = none
end_of_read closed = none
end_of_read (other e) = some e

module _ (run_hash flow expected : ℕ) where
  abbrev pub count_packet : List ℕ → PpsFlow → PpsFlow
  count_packet packet s =
      let c : Counters = s.counters in
      record s {
        counters = record c {
          packets_received = u64 (c.packets_received + 1);
          bytes_received =
              if leb header_size (length packet)
              then u64 (c.bytes_received + (length packet - header_size))
              else c.bytes_received;
        };
      }

  abbrev pub count_corrupt : PpsFlow → PpsFlow
  count_corrupt s =
      let c : Counters = s.counters in
      record s { counters = record c { corrupt = u64 (c.corrupt + 1) } }

  abbrev pub count_reordered : PpsFlow → PpsFlow
  count_reordered s =
      let c : Counters = s.counters in
      record s { counters = record c { reordered = u64 (c.reordered + 1) } }

  -- `previous` and `seen` behind a new sequence, which counts as reordered where it is late.
  abbrev pub mark_seen : ℕ → PpsFlow → PpsFlow
  mark_seen sequence s =
      let c : Counters = s.counters in
      record s {
        counters = record c {
          reordered =
              if not (s.previous == 0) && ltb sequence s.previous
              then u64 (c.reordered + 1)
              else c.reordered;
        };
        previous = if ltb s.previous sequence then sequence else s.previous;
        seen = set s.seen sequence true;
      }

  abbrev pub count_operation : ℕ → PpsFlow → PpsFlow
  count_operation latency s =
      let c : Counters = s.counters in
      record s {
        latencies = s.latencies ++ (latency ∷ []);
        received = s.received + 1;
        counters = record c { operations = u64 (c.operations + 1) };
      }

  unfoldable pub settle : Reception → ℕ → PpsFlow → Round
  settle x started_offset s =
      if started_offset == 0
      then goes_on (count_corrupt s)
      else goes_on (count_operation (x.now - (started_offset - 1)) s)

  unfoldable pub take_sequence : Reception → ℕ → PpsFlow → Round
  take_sequence x sequence s =
      if get_or s.seen sequence false
      then goes_on (count_reordered s)
      else settle x (x.sent_at sequence) (mark_seen sequence s)

  unfoldable pub take_response : Reception → PpsFlow → Option Header → Round
  take_response x s none = goes_on (count_corrupt s)
  take_response x s (some h) =
      if bit_and h.flags flag_response == 0
        || not (h.run == run_hash)
        || not (h.flow == u32 flow)
        || h.sequence == 0
        || ltb expected h.sequence
      then goes_on (count_corrupt s)
      else take_sequence x h.sequence s

  -- The body of the loop.
  unfoldable pub receive_round : PpsFlow → Reception → Read → Round
  receive_round s x (failed e) = returns (end_of_read e) s
  receive_round s x (got packet) = take_response x (count_packet packet s) (parse packet)

  abbrev pub resume : (PpsFlow → PpsFlow) → Round → PpsFlow
  resume next (returns e s) = s
  resume next (goes_on s) = next s

  -- The state that the loop leaves behind the readings that it is given.
  unfoldable pub receive_pps_flow : PpsFlow → List Reception → PpsFlow
  receive_pps_flow s [] = s
  receive_pps_flow s (x ∷ xs) =
      let next = resume (λ (t : PpsFlow). receive_pps_flow t xs) (receive_round s x x.read) in
      if ltb s.received expected then next else s
