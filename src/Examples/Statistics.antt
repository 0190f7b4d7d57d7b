-- ===== src/Examples/Statistics.antt =====
-- Three rounds of the statistics: one that reports, one at the same time, and one when the counter of
-- the received bytes has wrapped.
use msg.Prelude.{◌^◌, ◌-◌, false, List, [], ◌∷◌, arith}
use msg.Tunnel.Statistics.{Last, Wake, AddsUp, stat_loop, reports_add_up}

abbrev started : Last
started = record { last_stat_time = 10; last_stat_rx = 0; last_stat_tx = 0 }

abbrev three_rounds : List Wake
three_rounds =
    record {
      cancelled = false;
      closed = false;
      reading = record { now = 15; rx_bytes = 2 ^ 64 - 1; tx_bytes = 3 };
    }
    ∷ record {
      cancelled = false;
      closed = false;
      reading = record { now = 15; rx_bytes = 2 ^ 64 - 1; tx_bytes = 5 };
    }
    ∷ record {
      cancelled = false;
      closed = false;
      reading = record { now = 20; rx_bytes = 4; tx_bytes = 8 };
    }
    ∷ []

reports_add_up_example : AddsUp started (stat_loop started three_rounds)
reports_add_up_example =
    reports_add_up three_rounds started (omega arith) (omega arith)
      ((omega arith, omega arith), ((omega arith, omega arith), ((omega arith, omega arith), tt)))
