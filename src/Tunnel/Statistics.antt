-- ===== src/Tunnel/Statistics.antt =====
-- `stat_loop` of tunnel.cpp. A rate is the division of a difference by the time that has passed; the
-- model keeps the difference and the time, since the division is in floating point.
use msg.Prelude.{
  ℕ, ◌+◌, ◌-◌, ◌<◌, ◌%◌, ◌^◌, ◌≡◌, Bool, true, false, ◌||◌, List, [], ◌∷◌, ◌++◌, ltb, ltb→lt, All,
  if◌then◌else◌, Bool-cases, inl, inr, arith,
}

-- What a round of the loop finds in the session.
pub record Reading : Type 0 where
  pub now : ℕ
  pub rx_bytes : ℕ
  pub tx_bytes : ℕ

-- `last_stat_time`, `last_stat_rx` and `last_stat_tx`
pub record Last : Type 0 where
  pub last_stat_time : ℕ
  pub last_stat_rx : ℕ
  pub last_stat_tx : ℕ

-- What `log_stat` is given, before the divisions.
pub record Report : Type 0 where
  pub dt : ℕ
  pub rx : ℕ
  pub tx : ℕ

-- The difference of two `uint64_t`
abbrev pub minus64 : ℕ → ℕ → ℕ
minus64 a b = (a + (2 ^ 64 - b)) % 2 ^ 64

-- One round, when the clock has been read.
unfoldable pub stat_round : Last → Reading → Last × List Report
stat_round l r =
    if ltb l.last_stat_time r.now
    then (
      record { last_stat_time = r.now; last_stat_rx = r.rx_bytes; last_stat_tx = r.tx_bytes },
      record {
        dt = r.now - l.last_stat_time;
        rx = minus64 r.rx_bytes l.last_stat_rx;
        tx = minus64 r.tx_bytes l.last_stat_tx;
      }
          ∷ [],
    )
    else (l, [])

-- The timer's end: whether it was cancelled, whether the session is closed, and what stands there.
pub record Wake : Type 0 where
  pub cancelled : Bool
  pub closed : Bool
  pub reading : Reading

-- The loop, with the rounds that the timer brings, and all it reports.
unfoldable pub stat_loop : Last → List Wake → Last × List Report
stat_loop l [] = (l, [])
stat_loop l (w ∷ ws) =
    let (l', reports) = stat_round l w.reading in
    let (last, more) = stat_loop l' ws in
    if w.cancelled || w.closed then (l, []) else (last, reports ++ more)

abbrev pub total : (Report → ℕ) → List Report → ℕ
total field [] = 0
total field (r ∷ rs) = field r + total field rs

-- The counters of a session have 64 bits.
abbrev pub IsCount : Wake → Type 0
IsCount w = (w.reading.rx_bytes < 2 ^ 64) × (w.reading.tx_bytes < 2 ^ 64)

-- The reports lead from the one state to the other.
abbrev pub AddsUp : Last → Last × List Report → Type 0
AddsUp l r =
    ((l.last_stat_time + total (λ x. x.dt) r.1) ≡ r.0.last_stat_time)
    × ((((l.last_stat_rx + total (λ x. x.rx) r.1) % 2 ^ 64) ≡ r.0.last_stat_rx)
        × (((l.last_stat_tx + total (λ x. x.tx) r.1) % 2 ^ 64) ≡ r.0.last_stat_tx))

difference : (a b : ℕ) → a < 2 ^ 64 → b < 2 ^ 64 → (b + (minus64 a b + 0)) % 2 ^ 64 ≡ a
difference a b ha hb = omega arith

abbrev Small : Last → Type 0
Small l = (l.last_stat_rx < 2 ^ 64) × (l.last_stat_tx < 2 ^ 64)

round-AddsUp :
    (l : Last) (r : Reading)
    → Small l
    → r.rx_bytes < 2 ^ 64
    → r.tx_bytes < 2 ^ 64
    → AddsUp l (stat_round l r) × Small (stat_round l r).0
unfolding stat_round
round-AddsUp l r small c d = elim (Bool-cases (ltb l.last_stat_time r.now)) [
  | inl later ↦ rw later (
    (
      omega (arith, ltb→lt l.last_stat_time r.now later),
      (
        difference r.rx_bytes l.last_stat_rx c small.0,
        difference r.tx_bytes l.last_stat_tx d small.1,
      ),
    ),
    (c, d),
  )
  | inr same ↦ rw same ((omega arith, (omega (arith, small.0), omega (arith, small.1))), small)
]

total-append :
    (field : Report → ℕ) (rs ss : List Report)
    → total field (rs ++ ss) ≡ total field rs + total field ss
total-append field [] ss = omega arith
total-append field (r ∷ rs) ss = omega (arith, total-append field rs ss)

joined :
    (l l' last : Last) (rs ss : List Report)
    → AddsUp l (l', rs)
    → AddsUp l' (last, ss)
    → AddsUp l (last, rs ++ ss)
joined l l' last rs ss first second = (
  omega (arith, total-append (λ x. x.dt) rs ss, first.0, second.0),
  (
    omega (arith, total-append (λ x. x.rx) rs ss, first.1.0, second.1.0),
    omega (arith, total-append (λ x. x.tx) rs ss, first.1.1, second.1.1),
  ),
)

-- However often the timer ends, the times and the differences that are reported add up to what has
-- passed and what has been counted between the first state of the loop and its last, in 64 bits.
pub reports_add_up :
    (ws : List Wake) (l : Last)
    → l.last_stat_rx < 2 ^ 64
    → l.last_stat_tx < 2 ^ 64
    → All IsCount ws
    → AddsUp l (stat_loop l ws)
unfolding stat_loop
reports_add_up [] l a b counts = (omega arith, (omega arith, omega arith))
reports_add_up (w ∷ ws) l a b counts =
    let (adds, small) = round-AddsUp l w.reading (a, b) counts.0.0 counts.0.1 in
    by_end (w.cancelled || w.closed) (
      joined l (stat_round l w.reading).0 (stat_loop (stat_round l w.reading).0 ws).0 _ _ adds
        (reports_add_up ws (stat_round l w.reading).0 small.0 small.1 counts.1))
  where
    by_end :
        (over : Bool)
        → AddsUp l (
          (stat_loop (stat_round l w.reading).0 ws).0,
          (stat_round l w.reading).1 ++ (stat_loop (stat_round l w.reading).0 ws).1,
        )
        → AddsUp l (
            let (l', reports) = stat_round l w.reading in
            let (last, more) = stat_loop l' ws in if over then (l, []) else (last, reports ++ more))
    by_end true k = (omega arith, (omega arith, omega arith))
    by_end false k = k
