-- ===== src/Tests/Ticks.antt =====
-- The loop around a tick: a round that an exception leaves, and rounds that return.
use news2reel.Base.{ℕ, ◌≡◌, List, [], ◌∷◌, ◌++◌}
use news2reel.Store.{Db}
use news2reel.Loops.{after}
use news2reel.Tick.{run_tick}
use news2reel.Tick.Loop.{
  Wake, breaks, ticks, sleeps, tick_failed, stopped, tick_round, scheduler_loop,
  scheduler_loop-run_tick,
}
use news2reel.Tests.Setting.{plain, ascii, defaults}
use news2reel.Tests.Rows.{newsroom}
use news2reel.Tests.Network.{world}

-- a tick that ends behind its first attempt, and one that returns
abbrev ticks_so_far : List (Wake ℕ)
ticks_so_far = breaks world 0 1 ∷ ticks world 60000000 ∷ []

abbrev ticked : Db ℕ
ticked = after (tick_round defaults plain ascii) tick_failed stopped ticks_so_far newsroom

scheduler_loop-run_tick_example :
    ((scheduler_loop defaults plain ascii (ticks_so_far ++ ticks world 300000000 ∷ []) newsroom).1
      ≡ (run_tick world defaults plain ascii 300000000 ticked).1)
    × ((scheduler_loop defaults plain ascii (ticks_so_far ++ sleeps ∷ []) newsroom).1 ≡ ticked)
scheduler_loop-run_tick_example =
    scheduler_loop-run_tick defaults plain ascii ticks_so_far world 300000000 newsroom
      (tt, (tt, tt))
