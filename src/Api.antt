-- ===== src/Api.antt =====
-- `app/api/v1/endpoints/cities.py` and `app/api/v1/endpoints/sources.py`: the routes over cities and
-- feeds. The framework's part is that a route runs after the session of its caller is known and
-- its body has passed its schema, and that an exception without a handler is a 500.
pub mod Reads
pub mod Bodies
pub mod Routes
pub mod Commits
pub mod Atomic
pub mod Onboarding
pub mod Refreshes
pub mod DeckBodies
pub mod DeckRoutes
pub mod DeckAtomic
pub mod DeckFits
use news2reel.Base.{ℕ, Text}

-- A status with its body, an `HTTPException`, or an exception that is not translated.
pub data Reply (B : Type 0) : Type 0 where
  sent : ℕ → B → Reply B
  http_error : ℕ → Text → Reply B
  internal_error : Reply B
