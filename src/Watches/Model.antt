-- ===== src/Watches/Model.antt =====
-- apps/core/watches/models and the settings and result types that the services read.
-- An id is a ULID, read as a number: later ones are greater. The blank string, also of a kind or a
-- link to another row, is 0. A JSON blob is a number, and `{}` is 0. Times are in seconds.
use openmagpie.Prelude.{ℕ, ◌≡◌, Bool, ◌&&◌, Option, List, arith, ◌==◌}
use openmagpie.Watches.Enums.{RunState, DeliveryState, Cadence, Message}

-- The settings of apps/core/conf/settings/base.py that bound the passes.
pub record Settings : Type 0 where
  pub run_max_attempts : ℕ
  pub run_stale_seconds : ℕ
  pub digest_max_batch_items : ℕ
  pub backfill_max_attempts : ℕ
  pub backfill_stale_seconds : ℕ

-- `WatchActionRun`.
pub record Run : Type 0 where
  pub id : ℕ
  pub account_id : ℕ
  pub watch_id : ℕ
  pub action_id : ℕ
  pub kind : ℕ
  pub feed_item_id : ℕ
  pub state : RunState
  pub scheduled_at : Option ℕ
  pub started_at : Option ℕ
  pub completed_at : Option ℕ
  pub result : ℕ
  pub error : Message
  pub attempts : ℕ
  pub prior_run_id : ℕ
  pub delivery_id : ℕ
  pub updated_at : ℕ

-- `WatchActionDigestWindow`.
pub record Window : Type 0 where
  pub account_id : ℕ
  pub action_id : ℕ
  pub close_at : Option ℕ

-- An action's config as `load_config` reads it: a delivery kind has a cadence, the other kinds
-- none, and a stored blob may be invalid.
pub data Config : Type 0 where
  delivery : Cadence → ℕ → Config
  other : ℕ → Config
  invalid : Config

-- `WatchAction`.
pub record Action : Type 0 where
  pub id : ℕ
  pub account_id : ℕ
  pub path_id : ℕ
  pub kind : ℕ
  pub config : Config
  pub rank : ℕ

-- The columns of `FeedItem` that the passes read.
pub record Item : Type 0 where
  pub id : ℕ
  pub account_id : ℕ
  pub feed_id : ℕ
  pub blob : ℕ
  pub source_kind : ℕ
  pub external_id : ℕ
  pub source_label : ℕ
  pub source_meta : ℕ
  pub occurred_at : Option ℕ

-- `ActionItem` of apps/core/watches/actions/protocol.py; its key has two parts.
pub record ActionItem : Type 0 where
  pub blob : ℕ
  pub key : ℕ × ℕ
  pub source_label : ℕ
  pub source_kind : ℕ
  pub source_meta : ℕ

-- `ActionContext`.
pub record Context : Type 0 where
  pub watch_id : ℕ
  pub watch_name : ℕ
  pub cadence : Cadence
  pub window_since : Option ℕ
  pub window_until : Option ℕ

-- `OutboundCall` of apps/core/watches/actions/protocol.py.
pub record Call : Type 0 where
  pub target_host : ℕ
  pub method : ℕ
  pub http_status : Option ℕ
  pub item_count : ℕ
  pub request_payload : ℕ

-- `ActionResult`; an `OutboundActionResult` has an outbound call.
pub record ActionResult : Type 0 where
  pub state : RunState
  pub result : ℕ
  pub error : Message
  pub outbound : Option Call

-- `WatchActionDelivery`.
pub record Delivery : Type 0 where
  pub id : ℕ
  pub account_id : ℕ
  pub watch_id : ℕ
  pub action_id : ℕ
  pub cadence : Cadence
  pub call : Call
  pub state : DeliveryState
  pub attempt : ℕ
  pub error : Message
  pub started_at : ℕ
  pub completed_at : ℕ

-- `WatchFeed`: a subscription and its watermark.
pub record WatchFeed : Type 0 where
  pub id : ℕ
  pub account_id : ℕ
  pub watch_id : ℕ
  pub feed_id : ℕ
  pub last_item_id : ℕ

-- The columns of `Watch` that the passes read.
pub record Watch : Type 0 where
  pub id : ℕ
  pub account_id : ℕ
  pub name : ℕ
  pub initial_path_id : ℕ

-- The columns of `Feed` that the passes read.
pub record Feed : Type 0 where
  pub id : ℕ
  pub account_id : ℕ

-- The tables, and the next ULID.
pub record Db : Type 0 where
  pub runs : List Run
  pub windows : List Window
  pub actions : List Action
  pub items : List Item
  pub deliveries : List Delivery
  pub watches : List Watch
  pub feeds : List Feed
  pub watch_feeds : List WatchFeed
  pub next_id : ℕ

-- The unique constraint of `WatchActionRun`: (account, watch, action, feed item).
abbrev pub same_key : Run → Run → Bool
same_key a b =
    a.account_id == b.account_id
    && a.watch_id == b.watch_id
    && a.action_id == b.action_id
    && a.feed_item_id == b.feed_item_id

abbrev pub same_id : Run → Run → Bool
same_id a b = a.id == b.id

-- The primary key of the actions.
abbrev pub same_action : Action → Action → Bool
same_action a b = a.id == b.id

pub same_id_symm : (a b : Run) → same_id a b ≡ same_id b a
same_id_symm a b = ground arith

pub same_key_symm : (a b : Run) → same_key a b ≡ same_key b a
same_key_symm a b = ground arith

-- A row of `WatchActionRun` before it is saved: the columns that are not given have their defaults.
abbrev pub pending_run : ℕ → ℕ → ℕ → ℕ → ℕ → ℕ → ℕ → Run
pending_run account_id watch_id action_id kind feed_item_id scheduled_at prior_run_id = record {
  id = 0;
  account_id = account_id;
  watch_id = watch_id;
  action_id = action_id;
  kind = kind;
  feed_item_id = feed_item_id;
  state = RunState.pending;
  scheduled_at = Option.some scheduled_at;
  started_at = Option.none;
  completed_at = Option.none;
  result = 0;
  error = Message.blank;
  attempts = 0;
  prior_run_id = prior_run_id;
  delivery_id = 0;
  updated_at = 0;
}

-- What an action impl is to the passes: it judges or delivers items, and `none` is a raise. The
-- impls call engines and endpoints, so they are parameters.
abbrev pub Executor : Type 0
Executor = Action → List ActionItem → Context → Option ActionResult

-- The registries of a deployment: the executor of a kind, if there is one, and whether a result
-- conforms to the schema that its kind registered.
pub record Registry : Type 0 where
  pub executor : ℕ → Option Executor
  pub conforms : ℕ → ℕ → Bool
