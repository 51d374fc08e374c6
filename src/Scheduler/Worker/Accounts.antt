-- ===== src/Scheduler/Worker/Accounts.antt =====
-- The counters of a cycle account for every job claimed.
use cert_keeper.Prelude.{text_eq}
use cert_keeper.Scheduler.Worker.{PersistentWorker}
use cert_keeper.Scheduler.Worker.Cycle.{Progress, returns, goes_on}
use cert_keeper.Scheduler.Worker.Settled.{IsAccounted}

module _ {S : Type 0} (w : PersistentWorker S) where
  -- A turn of the loop, whether it is the last.
  IsProgress : Progress S → Type 0
  IsProgress (returns x) = IsAccounted 0 x.1
  IsProgress (goes_on x) = IsAccounted 0 x.1
