-- ===== src/Ingest/Persist/Bookkeeping.antt =====
-- What a failed and a successful fetch do to the schedule of their source.
use native.Mathlib.Nat.{one-le-pow}
use news2reel.Base.{
  ℕ, suc, ◌+◌, ◌*◌, ◌^◌, ◌≤◌, ◌<◌, ◌≡◌, refl, max, min, none, some, arith, Text, leb, or_else,
}
use news2reel.Core.Config.{Settings}
use news2reel.Model.{Instant, seconds, Source}
use news2reel.Schedule.{
  base_interval, backed_off_interval, effective_interval_seconds, is_due, max_backoff_exponent,
}
use news2reel.Ingest.Urls.{StdLib}
use news2reel.Ingest.Persist.{Headers, record_fetch_failure, record_fetch_success, parse_max_age}

pow-pos : (n : ℕ) → 1 ≤ 2 ^ n
pow-pos n = one-le-pow n 2 (omega arith)

module _ {F : Type 0} (settings : Settings F) where
  doubled :
      (base n : ℕ)
      → n < max_backoff_exponent
      → base * 2 ^ (n + 1) ≤ settings.scheduler_max_backoff_seconds
      → backed_off_interval settings base (n + 1) ≡ base * 2 ^ (n + 1)
  unfolding backed_off_interval
  doubled base n small fits =
      let e : n + 1 ≡ suc n = omega arith in
      let exponent : min (suc n) 32 ≡ suc n = omega arith in
      let positive = pow-pos (suc n) in rw e (rw exponent (grind arith))

  -- A failure is written on the source, leaves its validators and its last success alone, and
  -- doubles the wait: while there were fewer than 32 failures before and the doubled interval
  -- stays under the ceiling, the source is due again exactly when base * 2 ^ failures seconds
  -- have passed, this failure counted.
  record_fetch_failure-is_due :
      (source : Source) (error : Text) (now t : Instant)
      → source.consecutive_failures < max_backoff_exponent
      → base_interval source * 2 ^ (source.consecutive_failures + 1)
        ≤ settings.scheduler_max_backoff_seconds
      → (let failed = (record_fetch_failure source error now).1 in
          (failed.last_error ≡ some error)
          × (failed.etag ≡ source.etag)
          × (failed.last_success_at ≡ source.last_success_at)
          × (is_due failed t settings
              ≡ leb
                  (now + seconds (base_interval source * 2 ^ (source.consecutive_failures + 1)))
                  t))
  unfolding record_fetch_failure is_due effective_interval_seconds base_interval
  record_fetch_failure-is_due source error now t small fits =
      (refl, refl, refl, rw (doubled _ _ small fits) refl)

  -- A success clears the failures: the source is due again exactly one base interval later, where
  -- the base is the configured interval or the origin's max-age, whichever is longer; a header
  -- that the response leaves out keeps its stored validator.
  record_fetch_success-is_due :
      (std : StdLib) (source : Source) (headers : Headers) (now t : Instant)
      → (let done = record_fetch_success std source headers now in
          (done.consecutive_failures ≡ 0)
          × (done.last_error ≡ none)
          × (headers.etag ≡ none → done.etag ≡ source.etag)
          × (headers.last_modified ≡ none → done.last_modified ≡ source.last_modified)
          × (is_due done t settings
              ≡ leb
                  (now
                    + seconds (
                        max
                          (source.fetch_interval_minutes * 60)
                          (or_else (parse_max_age std headers.cache_control) 0)))
                  t))
  unfolding record_fetch_success is_due effective_interval_seconds base_interval backed_off_interval
  record_fetch_success-is_due std source headers now t =
      (refl, refl, λ e. rw e refl, λ e. rw e refl, refl)
