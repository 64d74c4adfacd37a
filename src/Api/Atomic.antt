-- ===== src/Api/Atomic.antt =====
-- What an error leaves behind: the routes of `app/api/v1/endpoints/cities.py` and
-- `app/api/v1/endpoints/sources.py` with the services behind them.
use news2reel.Base.{◌≡◌, Bool, true, false}
use news2reel.Store.{Db}
use news2reel.Api.{Reply, sent, http_error, internal_error}
use news2reel.Api.Commits.{Commits}
use news2reel.Api.Routes.{Body, App}

-- an answer that is no success
abbrev pub is_error : {B : Type 0} → Reply B → Bool
is_error (sent status body) = false
is_error (http_error status detail) = true
is_error internal_error = true

module _ {F : Type 0} (app : App F) where
  -- Where the answer is an error, the database is the one that was there.
  abbrev IsAtomic : Db F → Reply Body × Db F → Type 0
  IsAtomic db answered = is_error answered.0 ≡ true → answered.1 ≡ db
