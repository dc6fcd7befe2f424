-- ===== src/Network/HolePunch/Config.antt =====
-- internal/network/holepunch_manager.go: the configuration, and the time to the next attempt. Durations
-- are in nanoseconds.
use knowledge_mesh.Base.{
  if◌then◌else◌, ℕ, ◌+◌, ◌%◌, ◌^◌, ◌<◌, not, ltb, Bool-cases, ◌-◌, ◌≤◌, ◌≡◌, inl, inr, arith, zero,
  suc,
}
use knowledge_mesh.Base.Int.{
  ℤ, pos, pos_part, ◌≤ℤ◌, ltb_ℤ, beq_ℤ, signed64, add64, sub64, Fits64, max64, negsuc, ◌+ℤ◌, ◌-ℤ◌,
  int_laws, add64_exact, sub64_exact, Fits64-of_nonneg,
}

pub record HolePunchManagerConfig : Type 0 where
  pub retry_interval_min : ℤ
  pub retry_interval_max : ℤ
  pub min_gap_between_attempts : ℤ
  pub opportunistic_sweep_interval : ℤ
  pub relay_close_delay : ℤ

abbrev default_retry_min : ℤ
default_retry_min = pos 10000000000

abbrev default_retry_max : ℤ
default_retry_max = pos 20000000000

abbrev default_min_gap_attempts : ℤ
default_min_gap_attempts = pos 2000000000

abbrev default_opportunistic_sweep_interval : ℤ
default_opportunistic_sweep_interval = pos 45000000000

abbrev default_relay_close_delay : ℤ
default_relay_close_delay = pos 200000000

-- A duration that is not positive is replaced.
abbrev positive_or : ℤ → ℤ → ℤ
positive_or d default = if ltb_ℤ (pos 0) d then d else default

abbrev nonzero_or : ℤ → ℤ → ℤ
nonzero_or d default = if beq_ℤ d (pos 0) then default else d

abbrev at_least : ℤ → ℤ → ℤ
at_least low d = if ltb_ℤ d low then low else d

unfoldable pub normalize_hole_punch_config : HolePunchManagerConfig → HolePunchManagerConfig
normalize_hole_punch_config c =
    let low = positive_or c.retry_interval_min default_retry_min in
    record {
      retry_interval_min = low;
      retry_interval_max = at_least low (positive_or c.retry_interval_max default_retry_max);
      min_gap_between_attempts = positive_or c.min_gap_between_attempts default_min_gap_attempts;
      opportunistic_sweep_interval =
          nonzero_or c.opportunistic_sweep_interval default_opportunistic_sweep_interval;
      relay_close_delay = nonzero_or c.relay_close_delay default_relay_close_delay;
    }

-- jitterDuration; `uint64n n` is what rand.Uint64N(n) draws.
unfoldable pub jitter_duration : (ℕ → ℕ) → ℤ → ℤ → ℤ
jitter_duration uint64n low high =
    if not (ltb_ℤ low high)
    then low
    else add64 low (signed64 (uint64n ((pos_part (sub64 high low) + 1) % 2 ^ 64)))

difference : (a b : ℕ) → a ≤ b → b ≤ max64 → sub64 (pos b) (pos a) ≡ pos (b - a)
difference a b order high =
    rw
      (sub64_exact (pos b) (pos a)
        (Fits64-of_nonneg (pos b -ℤ pos a) (omega int_laws) (omega int_laws)))
      (omega int_laws)

sum : (a r : ℕ) → a + r ≤ max64 → add64 (pos a) (pos r) ≡ pos (a + r)
sum a r h =
    rw
      (add64_exact (pos a) (pos r)
        (Fits64-of_nonneg (pos a +ℤ pos r) (omega int_laws) (omega int_laws)))
      (omega int_laws)

between :
    (uint64n : ℕ → ℕ) (a b : ℕ)
    → ((n : ℕ) → 0 < n → uint64n n < n)
    → 1 ≤ a
    → a ≤ b
    → b ≤ max64
    → let d = jitter_duration uint64n (pos a) (pos b) in (pos 1 ≤ℤ d) × (pos a ≤ℤ d) × (d ≤ℤ pos b)
unfolding jitter_duration
between uint64n a b draws low order high = elim (Bool-cases (ltb a b)) [
  | inr e ↦ ground arith
  | inl e ↦
      let delta : sub64 (pos b) (pos a) ≡ pos (b - a) = difference a b order high in
      let r = uint64n ((b - a + 1) % 2 ^ 64) in
      let bound : r < (b - a + 1) % 2 ^ 64 = draws ((b - a + 1) % 2 ^ 64) (omega arith) in
      let small : signed64 r ≡ pos r = ground arith in
      let total : add64 (pos a) (pos r) ≡ pos (a + r) = sum a r (omega arith) in
      rw (delta, small, total) (ground arith)
]

-- A duration of the configuration: positive, and an int64.
IsSpan : ℤ → Type 0
IsSpan d = (n : ℕ) × (d ≡ pos n) × (1 ≤ n) × (n ≤ max64)

positive_or-IsSpan : (d : ℤ) (n : ℕ) → Fits64 d → 1 ≤ n → n ≤ max64 → IsSpan (positive_or d (pos n))
unfolding IsSpan
positive_or-IsSpan (negsuc k) n fits low high = (n, ground arith, low, high)
positive_or-IsSpan (pos zero) n fits low high = (n, ground arith, low, high)
positive_or-IsSpan (pos (suc k)) n fits low high = (suc k, ground arith, omega arith, fits.0)

-- With the configuration that the manager keeps, the time to the next attempt lies between the two
-- bounds of the configuration, whatever is drawn.
pub jitter_duration_bounds :
    (uint64n : ℕ → ℕ) (c : HolePunchManagerConfig)
    → ((n : ℕ) → 0 < n → uint64n n < n)
    → Fits64 c.retry_interval_min
    → Fits64 c.retry_interval_max
    → let cfg = normalize_hole_punch_config c in
      let d = jitter_duration uint64n cfg.retry_interval_min cfg.retry_interval_max in
      (pos 1 ≤ℤ d) × (cfg.retry_interval_min ≤ℤ d) × (d ≤ℤ cfg.retry_interval_max)
unfolding normalize_hole_punch_config IsSpan
jitter_duration_bounds uint64n c draws fits_min fits_max =
    let (a, ea, low_a, high_a) =
      positive_or-IsSpan c.retry_interval_min 10000000000 fits_min (omega arith) (omega arith) in
    let (b, eb, low_b, high_b) =
      positive_or-IsSpan c.retry_interval_max 20000000000 fits_max (omega arith) (omega arith) in
    rw (ea, eb) (ordered a b low_a high_a high_b)
  where
    ordered :
        (a b : ℕ)
        → 1 ≤ a
        → a ≤ max64
        → b ≤ max64
        → let d = jitter_duration uint64n (pos a) (at_least (pos a) (pos b)) in
          (pos 1 ≤ℤ d) × (pos a ≤ℤ d) × (d ≤ℤ at_least (pos a) (pos b))
    ordered a b low high_a high_b = elim (Bool-cases (ltb_ℤ (pos b) (pos a))) [
      | inl e ↦ rw e (between uint64n a a draws low (omega arith) high_a)
      | inr e ↦ rw e (between uint64n a b draws low (ground arith) high_b)
    ]
