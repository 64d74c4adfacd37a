-- ===== src/Schedule/Backoff.antt =====
-- The interval between two polls of a source, and when the source is due again.
use native.Mathlib.Nat.{pow-le-pow_right}
use news2reel.Base.{
  ℕ, zero, suc, ◌+◌, ◌*◌, ◌^◌, ◌≤◌, ◌<◌, ◌≡◌, refl, min, max, true, false, some, arith,
}
use news2reel.Core.Config.{Settings}
use news2reel.Model.{Instant, seconds, Source}
use news2reel.Schedule.{
  base_interval, backed_off_interval, effective_interval_seconds, is_due, max_backoff_exponent,
}

-- The doubled interval grows with the failures.
doubled_mono :
    (base m n : ℕ)
    → m ≤ n
    → base * 2 ^ min m max_backoff_exponent ≤ base * 2 ^ min n max_backoff_exponent
doubled_mono base m n h =
    grind
      (arith, pow-le-pow_right {n = 2} (omega arith) {i = min m 32} {j = min n 32} (omega arith))

cap_mono : (base a b cap : ℕ) → a ≤ b → max base (min a cap) ≤ max base (min b cap)
cap_mono base a b cap h = omega arith

module _ {F : Type 0} (settings : Settings F) where
  backed_off-between :
      (base n : ℕ)
      → (base ≤ backed_off_interval settings base n)
        × (backed_off_interval settings base n ≤ max base settings.scheduler_max_backoff_seconds)
  unfolding backed_off_interval
  backed_off-between base zero = omega arith
  backed_off-between base (suc n) = omega arith

  backed_off_mono :
      (base m n : ℕ)
      → m ≤ n
      → backed_off_interval settings base m ≤ backed_off_interval settings base n
  unfolding backed_off_interval
  backed_off_mono base zero n h = (backed_off-between base n).0
  backed_off_mono base (suc m) zero h = absurd (omega arith)
  backed_off_mono base (suc m) (suc n) h =
      let grows = doubled_mono base (suc m) (suc n) h in
      cap_mono base _ _ settings.scheduler_max_backoff_seconds grows

  -- The interval of a source is at least its base interval, and at most that or the backoff
  -- ceiling, whichever is longer; more failures never shorten it, and without failures it is the
  -- base.
  effective_interval_seconds-between :
      (source : Source) (n : ℕ)
      → (base_interval source ≤ effective_interval_seconds source settings)
        × (effective_interval_seconds source settings
            ≤ max (base_interval source) settings.scheduler_max_backoff_seconds)
        × (source.consecutive_failures ≤ n
            → effective_interval_seconds source settings
              ≤ effective_interval_seconds (record source { consecutive_failures = n }) settings)
        × (effective_interval_seconds (record source { consecutive_failures = 0 }) settings
            ≡ base_interval source)
  unfolding effective_interval_seconds base_interval backed_off_interval
  effective_interval_seconds-between source n =
      let base = base_interval source in
      let (low, high) = backed_off-between base source.consecutive_failures in
      (low, high, backed_off_mono base source.consecutive_failures n, refl)

  -- A source that was fetched is not due before its base interval is over, and is due once the
  -- longest interval that any number of failures can give is over.
  pub is_due-after_fetch :
      (source : Source) (last now : Instant)
      → source.last_fetched_at ≡ some last
      → (now < last + seconds (base_interval source) → is_due source now settings ≡ false)
        × (last + seconds (max (base_interval source) settings.scheduler_max_backoff_seconds) ≤ now
            → is_due source now settings ≡ true)
  unfolding is_due effective_interval_seconds
  is_due-after_fetch source last now fetched =
      let base = base_interval source in
      let (low, high) = backed_off-between base source.consecutive_failures in
      rw fetched (λ early. ground (arith, low), λ late. ground (arith, high))
