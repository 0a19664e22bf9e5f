-- ===== src/Watches/Trigger/Coverage.antt =====
-- The runs of the chain's head for the feed items that apps/core/watches/operations/trigger.py scans.
use openmagpie.Prelude.{ℕ, ◌≡◌, ◌==◌, not, count, update, Bool, true, List, select, All}
use openmagpie.Watches.Model.{Action, Item, Watch, WatchFeed, Db}
use openmagpie.Watches.Advance.Effects.{has_run}
use openmagpie.Watches.Trigger.{in_window, HeadCadence}

abbrev is_subscription : WatchFeed → WatchFeed → Bool
is_subscription watch_feed w = w.id == watch_feed.id

module _ (watch_feed : WatchFeed) (through_id : ℕ) where
  abbrev marked : List WatchFeed → List WatchFeed
  marked = update (is_subscription watch_feed) (λ w. record w { last_item_id = through_id })

module _ (watch : Watch) (head : Action) (cadence : HeadCadence) (now : ℕ) where
  -- Every item in the window has a run of the head.
  abbrev pub Covered : WatchFeed → (through_id : ℕ) → List Item → Db → Type 0
  Covered watch_feed through_id items db =
      All (λ i. has_run watch.account_id watch.id head.id i.id db ≡ true)
        (select (in_window watch.account_id watch_feed.feed_id watch_feed.last_item_id through_id)
          items)

  -- What a scan up to `through_id` came to: the items up to it are covered, the watermark is there,
  -- and the other subscriptions are as they were.
  abbrev pub IsScanned : WatchFeed → (through_id : ℕ) → Db → Db → Type 0
  IsScanned watch_feed through_id db db' =
      Covered watch_feed through_id db.items db'
      × All (λ w. w.last_item_id ≡ through_id) (select (is_subscription watch_feed) db'.watch_feeds)
      × (count (is_subscription watch_feed) db'.watch_feeds
          ≡ count (is_subscription watch_feed) db.watch_feeds)
      × (select (λ w. not (is_subscription watch_feed w)) db'.watch_feeds
          ≡ select (λ w. not (is_subscription watch_feed w)) db.watch_feeds)
