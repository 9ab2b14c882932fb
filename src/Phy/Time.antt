-- ===== src/Phy/Time.antt =====
-- src/domains/phy.c: times of day as seconds and microseconds, and as one number.
use whad_lib.Prelude.{ℕ, ◌+◌, ◌*◌, ◌/◌, ◌%◌, ◌^◌, ◌<◌, ◌≡◌, ◌↔◌, ap, ap₂, arith, if◌then◌else◌}
use whad_lib.Phy.{to_timestamp, jammed_timestamp, packet_timestamp}
use whad_lib.Phy.Parse.{from_timestamp}

parts :
    (s u : ℕ)
    → u < 1000000
    → s * 1000000 + u < 2 ^ 32
    → (((s * 1000000 + u) % 2 ^ 32 / 1000000) % 2 ^ 32 ≡ s)
      × (((s * 1000000 + u) % 2 ^ 32 % 1000000) % 2 ^ 32 ≡ u)
parts s u small short = (omega arith, omega arith)

fits :
    (s u : ℕ)
    → ((s * 1000000 + u) % 2 ^ 32 / 1000000) % 2 ^ 32 ≡ s
    → ((s * 1000000 + u) % 2 ^ 32 % 1000000) % 2 ^ 32 ≡ u
    → (u < 1000000) × (s * 1000000 + u < 2 ^ 32)
fits s u seconds micros = (omega arith, omega arith)

-- A time comes back from its timestamp exactly where the microseconds are less than a million and the
-- whole is less than 2^32 microseconds, about 71 minutes: the sum is computed in 32 bits.
pub timestamp_exact :
    (ts_sec ts_usec : ℕ)
    → (from_timestamp (to_timestamp ts_sec ts_usec) ≡ record { ts_sec = ts_sec; ts_usec = ts_usec })
      ↔ ((ts_usec < 1000000) × (ts_sec * 1000000 + ts_usec < 2 ^ 32))
unfolding from_timestamp to_timestamp
timestamp_exact s u = (
  (λ e. fits s u (ap (λ t. t.ts_sec) e) (ap (λ t. t.ts_usec) e)),
  (λ (small, short).
      let (seconds, micros) = parts s u small short in
      ap₂ (λ a b. record { ts_sec = a; ts_usec = b }) seconds micros),
)

-- The test for zero changes nothing.
pub jammed_timestamp_lem : (s u : ℕ) → jammed_timestamp s u ≡ to_timestamp s u
unfolding jammed_timestamp to_timestamp
jammed_timestamp_lem s u = ground arith

pub packet_time :
    (s u : ℕ)
    → (if (packet_timestamp s u).present
        then from_timestamp (packet_timestamp s u).value
        else record { ts_sec = 0; ts_usec = 0 })
      ≡ from_timestamp (to_timestamp s u)
unfolding packet_timestamp to_timestamp from_timestamp
packet_time s u = ground arith
