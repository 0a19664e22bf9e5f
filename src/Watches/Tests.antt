-- ===== src/Watches/Tests.antt =====
-- A small deployment: one watch on one feed, whose chain judges an item and then delivers it in a digest.
mod Runs
mod Passes
mod Edits
mod Jobs
mod Feeds
use openmagpie.Prelude.{
  ℕ, suc, ◌+◌, ◌≡◌, ◌≢◌, ◌<◌, ◌≤◌, refl, Bool, true, false, Option, none, some, List, [], ◌∷◌, ◌++◌,
  arith, ltb, leb, ◌==◌, exists, All, Unique, is_some,
}
use openmagpie.Watches.Enums.{
  RunState, pending, running, succeeded, failed, errored, Cadence, instant, digest, Message, blank,
  state_eq,
}
use openmagpie.Watches.Model.{
  Settings, Run, Window, Config, delivery, other, Action, Item, ActionItem, Context, ActionResult,
  Call, Delivery, WatchFeed, Watch, Feed, Db, Executor, Registry, pending_run, same_key, same_id,
}
use openmagpie.Watches.Runs.Sound.{IsConsistent, IsSound, IsKeyed}
use openmagpie.Watches.Drain.Sound.{AllRest, Rests}

abbrev pub limits : Settings
limits = record {
  run_max_attempts = 3;
  run_stale_seconds = 30;
  digest_max_batch_items = 2;
  backfill_max_attempts = 3;
  backfill_stale_seconds = 30;
}

abbrev pub judge : Action
judge = record { id = 10; account_id = 1; path_id = 7; kind = 5; config = other 9; rank = 10 }

abbrev pub notify : Action
notify = record {
  id = 11;
  account_id = 1;
  path_id = 7;
  kind = 6;
  config = delivery digest 60;
  rank = 20;
}

abbrev pub watched : Watch
watched = record { id = 2; account_id = 1; name = 4; initial_path_id = 7 }

abbrev pub subscription : WatchFeed
subscription = record { id = 40; account_id = 1; watch_id = 2; feed_id = 30; last_item_id = 100 }

abbrev pub item_of : ℕ → Item
item_of n = record {
  id = n;
  account_id = 1;
  feed_id = 30;
  blob = 1;
  source_kind = 3;
  external_id = n;
  source_label = 0;
  source_meta = 0;
  occurred_at = none;
}

abbrev pub with_id : ℕ → Run → Run
with_id n r = record r { id = n }

abbrev pub judge_run : Run
judge_run = with_id 200 (pending_run 1 2 10 5 100 50 0)

abbrev pub notify_run : Run
notify_run = with_id 201 (pending_run 1 2 11 6 99 50 0)

-- The item 100 waits for the judge, 99 for its digest, and 101 is new.
abbrev pub db : Db
db = record {
  runs = judge_run ∷ notify_run ∷ [];
  windows = record { account_id = 1; action_id = 11; close_at = some 55 } ∷ [];
  actions = notify ∷ judge ∷ [];
  items = item_of 101 ∷ item_of 100 ∷ item_of 99 ∷ [];
  deliveries = [];
  watches = watched ∷ [];
  feeds = record { id = 30; account_id = 1 } ∷ [];
  watch_feeds = subscription ∷ [];
  next_id = 300;
}

abbrev pub success : ActionResult
success = record { state = succeeded; result = 8; error = blank; outbound = none }

-- Every kind succeeds.
abbrev pub deployment : Registry
deployment = record {
  executor = λ kind. some (λ action items context. some success);
  conforms = λ kind result. true;
}

pub deployment-AllRest : AllRest deployment
deployment-AllRest kind impl action items context result e r =
    let same : some success ≡ some result = ground (arith, e, r) in ground arith

judge_run-IsConsistent : IsConsistent limits judge_run
judge_run-IsConsistent = ground arith

notify_run-IsConsistent : IsConsistent limits notify_run
notify_run-IsConsistent = ground arith

pub db-IsKeyed : IsKeyed db
unfolding exists
db-IsKeyed = record {
  unique = (refl, (refl, tt));
  ids = (refl, (refl, tt));
  fresh = (omega arith, (omega arith, tt));
}

pub db-IsSound : IsSound limits db
db-IsSound = record {
  consistent = (judge_run-IsConsistent, (notify_run-IsConsistent, tt));
  keyed = db-IsKeyed;
}
