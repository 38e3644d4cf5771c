-- ===== src/Netdev/Tests.antt =====
-- Two readings of an interface that received a packet of 60 bytes.
use sing_box_inbound_bench.Netdev.{Stats}

abbrev first_reading : Stats
first_reading = record {
  rx_bytes = 1000;
  rx_packets = 10;
  rx_errors = 0;
  rx_dropped = 1;
  tx_bytes = 500;
  tx_packets = 5;
  tx_errors = 0;
  tx_dropped = 0;
}

abbrev second_reading : Stats
second_reading = record first_reading { rx_bytes = 1060; rx_packets = 11 }
