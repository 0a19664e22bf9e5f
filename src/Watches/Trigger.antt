-- ===== src/Watches/Trigger.antt =====
-- apps/core/watches/operations/trigger.py, with the reads and the write of `WatchService` and
-- `FeedItemService` that it makes. Progress callbacks and logs are not modelled; `none` is an
-- exception.
pub mod Coverage
use openmagpie.Prelude.{
  ℕ, suc, ◌+◌, Bool, true, false, not, ◌&&◌, Option, none, some, List, [], ◌∷◌, map, ltb, leb, ◌==◌,
  if◌then◌else◌, select, update, find, order_by,
}
use openmagpie.Watches.Enums.{Cadence, instant, digest}
use openmagpie.Watches.Model.{
  Action, Config, delivery, other, invalid, Item, Watch, WatchFeed, Feed, Db,
}
use openmagpie.Watches.Runs.Enqueue.{enqueue_many}
use openmagpie.Watches.Windows.{open_window}
use openmagpie.Watches.Chain.{list_for_path}

-- `newest_item_id`: the greatest id of the feed's items, or `None`.
unfoldable pub newest_from : (account_id feed_id : ℕ) → Option ℕ → List Item → Option ℕ
newest_from account_id feed_id best [] = best
newest_from account_id feed_id best (i ∷ items) =
    newest_from account_id feed_id
      (if i.account_id == account_id && i.feed_id == feed_id
        then elim best [ none ↦ some i.id | some b ↦ if ltb b i.id then some i.id else some b ]
        else best)
      items

unfoldable pub newest_item_id : (account_id feed_id : ℕ) → Db → Option ℕ
unfolding newest_from
newest_item_id account_id feed_id db = newest_from account_id feed_id none db.items

-- The items of the feed in `(after_id, through_id]`.
abbrev pub in_window : (account_id feed_id after_id through_id : ℕ) → Item → Bool
in_window account_id feed_id after_id through_id i =
    i.account_id == account_id && i.feed_id == feed_id && ltb after_id i.id && leb i.id through_id

abbrev pub id_before : Item → Item → Bool
id_before a b = ltb a.id b.id

-- The ids that `iter_item_ids_in_window` yields: its keyset pages are consecutive pieces of this list.
unfoldable pub item_ids_in_window : (account_id feed_id after_id through_id : ℕ) → Db → List ℕ
item_ids_in_window account_id feed_id after_id through_id db =
    map (λ i. i.id)
      (order_by id_before (select (in_window account_id feed_id after_id through_id) db.items))

-- `WatchService.watch_feeds` and `advance_watermark`.
unfoldable pub watch_feeds : Watch → Db → List WatchFeed
watch_feeds watch db =
    order_by (λ a b. ltb a.id b.id)
      (select (λ w. w.account_id == watch.account_id && w.watch_id == watch.id) db.watch_feeds)

unfoldable pub advance_watermark : WatchFeed → (last_item_id : ℕ) → Db → Db
advance_watermark watch_feed last_item_id db = record db {
  watch_feeds =
      update (λ w. w.id == watch_feed.id) (λ w. record w { last_item_id = last_item_id })
        db.watch_feeds;
}

-- `initial_actions`; a watch without a path is corrupt.
unfoldable pub initial_actions : Watch → Db → Option (List Action)
initial_actions watch db =
    if watch.initial_path_id == 0
    then none
    else some (list_for_path watch.account_id watch.initial_path_id db)

-- How the chain's head is scheduled: instantly, or by a digest window of this interval.
pub data HeadCadence : Type 0 where
  at_once : HeadCadence
  batched_by : ℕ → HeadCadence

-- The `load_config` of the head, which may raise, and the tests on it.
unfoldable pub head_cadence : Config → Option HeadCadence
head_cadence (delivery digest interval_seconds) = some (batched_by interval_seconds)
head_cadence (delivery instant interval_seconds) = some at_once
head_cadence (other blob) = some at_once
head_cadence invalid = none

-- The counters and the window of the pass, which its first feed with new items opens.
pub record Progress : Type 0 where
  pub feeds_scanned : ℕ
  pub runs_enqueued : ℕ
  pub digest_scheduled_at : Option ℕ

module _ (watch : Watch) (head : Action) (cadence : HeadCadence) (now : ℕ) where
  -- When the runs of this feed fall due, and the tables with the window that was opened for it.
  unfoldable pub schedule_feed : HeadCadence → Option ℕ → Db → ℕ × Option ℕ × Db
  schedule_feed at_once opened db = (now, opened, db)
  schedule_feed (batched_by interval_seconds) (some t) db = (t, some t, db)
  schedule_feed (batched_by interval_seconds) none db =
      let (t, db') = open_window watch.account_id head.id interval_seconds now db in
      (t, some t, db')

  -- The enqueue before the advance of the watermark.
  unfoldable pub scan_window : WatchFeed → (through_id : ℕ) → Progress → Db → Option (Progress × Db)
  unfolding schedule_feed
  scan_window watch_feed through_id p db =
      let (scheduled_at, opened, db') = schedule_feed cadence p.digest_scheduled_at db in
      elim (enqueue_many watch.account_id watch.id head.id head.kind scheduled_at
        (item_ids_in_window watch.account_id watch_feed.feed_id watch_feed.last_item_id through_id
          db')
        db') [
          | none ↦ none
          | some (enqueued, db'') ↦ some (
            record {
              feeds_scanned = p.feeds_scanned;
              runs_enqueued = p.runs_enqueued + enqueued;
              digest_scheduled_at = opened;
            },
            advance_watermark watch_feed through_id db'',
          )
        ]

  -- One turn of the loop: a feed that is gone is skipped, an empty one and one without news are
  -- counted, and a feed of another account is a `ValueError`.
  unfoldable pub scan_feed : WatchFeed → Progress → Db → Option (Progress × Db)
  unfolding scan_window
  scan_feed watch_feed p db = elim (find (λ f. f.id == watch_feed.feed_id) db.feeds) [
    | none ↦ some (p, db)
    | some feed ↦
        let p' = record p { feeds_scanned = p.feeds_scanned + 1 } in
        if feed.account_id == watch.account_id
        then elim (newest_item_id watch.account_id watch_feed.feed_id db) [
          | none ↦ some (p', db)
          | some through_id ↦
              if watch_feed.last_item_id == through_id
              then some (p', db)
              else scan_window watch_feed through_id p' db
        ]
        else none
  ]

  unfoldable pub scan_feeds : List WatchFeed → Progress → Db → Option (Progress × Db)
  unfolding scan_feed
  scan_feeds [] p db = some (p, db)
  scan_feeds (watch_feed ∷ rest) p db = elim (scan_feed watch_feed p db) [
    | none ↦ none
    | some (p', db') ↦ scan_feeds rest p' db'
  ]

abbrev pub no_progress : Progress
no_progress = record { feeds_scanned = 0; runs_enqueued = 0; digest_scheduled_at = none }

unfoldable pub trigger_actions : Watch → (now : ℕ) → List Action → Db → Option (Progress × Db)
unfolding scan_feeds head_cadence
trigger_actions watch now [] db = some (no_progress, db)
trigger_actions watch now (head ∷ rest) db = elim (head_cadence head.config) [
  | none ↦ none
  | some cadence ↦ scan_feeds watch head cadence now (watch_feeds watch db) no_progress db
]

-- `WatchTriggerOperation(watch).run()`.
unfoldable pub trigger : Watch → (now : ℕ) → Db → Option (Progress × Db)
unfolding trigger_actions initial_actions
trigger watch now db = elim (initial_actions watch db) [
  | none ↦ none
  | some actions ↦ trigger_actions watch now actions db
]
