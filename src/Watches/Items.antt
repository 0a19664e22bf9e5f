-- ===== src/Watches/Items.antt =====
-- The writes of apps/core/feeds/services/feeds/_items.py: `record_items` and `prune_items`.
pub mod Recorded
use openmagpie.Prelude.{
  ℕ, suc, ◌+◌, Bool, true, false, not, ◌&&◌, Option, none, some, List, [], ◌∷◌, ◌++◌, map, ltb, leb,
  ◌==◌, if◌then◌else◌, length, exists, select, count, remove,
}
use openmagpie.Watches.Model.{Item, Feed, Db}
use openmagpie.Watches.Runs.Complete.{id_in}

-- The columns of a `SourcePayload` that the recording reads, and its dump.
pub record SourcePayload : Type 0 where
  pub source : ℕ
  pub external_id : ℕ
  pub occurred_at : ℕ
  pub blob : ℕ

-- The unique constraint of `FeedItem`.
abbrev pub same_item : Item → Item → Bool
same_item a b =
    a.feed_id == b.feed_id && a.source_kind == b.source_kind && a.external_id == b.external_id

-- INSERT ... ON CONFLICT DO NOTHING.
unfoldable pub insert_item : Item → Db → Db
insert_item i db = if exists (same_item i) db.items then db else record db {
  items = db.items ++ record i { id = db.next_id } ∷ [];
  next_id = suc db.next_id;
}

-- `bulk_create(rows, ignore_conflicts=True)`.
unfoldable pub create_items : List Item → Db → Db
create_items [] db = db
create_items (i ∷ rows) db = create_items rows (insert_item i db)

module _ (account_id feed_id source_label source_meta : ℕ) where
  abbrev pub item_row : SourcePayload → Item
  item_row payload = record {
    id = 0;
    account_id = account_id;
    feed_id = feed_id;
    blob = payload.blob;
    source_kind = payload.source;
    external_id = payload.external_id;
    source_label = source_label;
    source_meta = source_meta;
    occurred_at = some payload.occurred_at;
  }

  -- The items of the query for existing keys.
  abbrev pub found_items : List ℕ → List Item → List Item
  found_items external_ids =
      select (λ i.
        i.account_id == account_id && i.feed_id == feed_id && id_in external_ids i.external_id)

  -- `(payload.source, payload.external_id) in existing`.
  abbrev pub is_existing : List Item → SourcePayload → Bool
  is_existing existing payload =
      exists (λ i. i.source_kind == payload.source && i.external_id == payload.external_id) existing

  -- `_record_chunk`.
  unfoldable pub record_chunk : List SourcePayload → Db → ℕ × Db
  record_chunk chunk db =
      let existing = found_items (map (λ p. p.external_id) chunk) db.items in
      let new = select (λ p. not (is_existing existing p)) chunk in
      (length new, create_items (map item_row new) db)

  -- The loop: the chunk that is not yet full, and the count.
  unfoldable pub record_turn :
      (chunk_size : ℕ) → List SourcePayload → (created : ℕ) → Db → List SourcePayload × ℕ × Db
  unfolding record_chunk
  record_turn chunk_size chunk created db =
      if leb chunk_size (length chunk)
      then (let (n, db') = record_chunk chunk db in ([], created + n, db'))
      else (chunk, created, db)

  -- The chunk that is left at the end.
  unfoldable pub record_rest : List SourcePayload → (created : ℕ) → Db → ℕ × Db
  unfolding record_chunk
  record_rest [] created db = (created, db)
  record_rest (p ∷ chunk) created db =
      let (n, db') = record_chunk (p ∷ chunk) db in (created + n, db')

  unfoldable pub record_payloads :
      (chunk_size : ℕ)
      → (chunk : List SourcePayload) → (created : ℕ) → List SourcePayload
      → Db
      → ℕ × Db
  unfolding record_turn record_rest
  record_payloads chunk_size chunk created [] db = record_rest chunk created db
  record_payloads chunk_size chunk created (payload ∷ payloads) db =
      let (left, created', db') = record_turn chunk_size (chunk ++ payload ∷ []) created db in
      record_payloads chunk_size left created' payloads db'

-- `record_items`; `none` is the `ValueError` of a feed of another account.
unfoldable pub record_items :
    (account_id : ℕ)
    → Feed
    → (source_label source_meta chunk_size : ℕ) → List SourcePayload
    → Db
    → Option (ℕ × Db)
unfolding record_payloads
record_items account_id feed source_label source_meta chunk_size payloads db =
    if feed.account_id == account_id
    then some
        (record_payloads account_id feed.id source_label source_meta chunk_size [] 0 payloads db)
    else none

-- `prune_items`, with the least ULID of the cutoff.
unfoldable pub prune_items : (account_id : ℕ) → Feed → (cutoff_ulid : ℕ) → Db → Option (ℕ × Db)
prune_items account_id feed cutoff_ulid db =
    if feed.account_id == account_id
    then some (count old db.items, record db { items = remove old db.items })
    else none
  where
    old : Item → Bool
    old i = i.account_id == account_id && i.feed_id == feed.id && ltb i.id cutoff_ulid
