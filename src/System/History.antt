-- ===== src/System/History.antt =====
-- What holds over any sequence of the transactions of the program.
use news2reel.Core.Floats.{FloatOps}
use news2reel.Store.{Db}
use news2reel.Api.Routes.{App}
use news2reel.System.{Step, asked, asked_decks, persisted, judged, Steps, here, next}
use news2reel.System.Sound.{IsSound, Keeps, Follows, Follows-refl, Follows-trans}
use news2reel.System.Requests.{respond-Follows}
use news2reel.System.Articles.{persisted-Follows, judged-Follows}
use news2reel.System.DeckRequests.{deck_respond-Follows}

module _ {F : Type 0} (fl : FloatOps F) (app : App F) where
  Step-Follows : (db db' : Db F) → IsSound db → Step fl app db db' → Follows db db'
  Step-Follows db _ s (asked caller now request) = respond-Follows app caller now request db s
  Step-Follows db _ s (asked_decks caller now request) =
      deck_respond-Follows fl app db s caller now request
  Step-Follows db _ s (persisted world seen attempt source found) =
      persisted-Follows world app.settings app.std app.chars db seen attempt source s found
  Step-Follows db _ s (judged assigned ids) = judged-Follows fl assigned db ids s

  -- However the requests of editors, the commits of ticks and refreshes and the verdicts of the
  -- classifier interleave: from a sound database the program reaches sound databases only, where
  -- no article id stands twice, every article has its feed, every feed and every deck has its
  -- city, and every feed is within the bounds of its schema. No city, no feed and no article that
  -- was stored is ever lost on the way.
  pub Steps-Follows :
      (db : Db F) {db' : Db F} → IsSound db → Steps fl app db db' → Keeps db db' × IsSound db'
  Steps-Follows db s here = let h = Follows-refl db s in (h.keeps, h.sound)
  Steps-Follows db s (next {db'} {db''} steps step) =
      let (keeps, sound) = Steps-Follows db s steps in
      let last =
        Follows-trans db db' db'' (record { keeps = keeps; sound = sound })
          (Step-Follows db' db'' sound step) in
      (last.keeps, last.sound)
