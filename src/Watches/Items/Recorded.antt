-- ===== src/Watches/Items/Recorded.antt =====
-- The chunked recording of apps/core/feeds/services/feeds/_items.py against one insert for each payload.
use openmagpie.Prelude.{
  ap, ℕ, ◌≡◌, refl, sym, subst, ◌∙◌, Bool, true, not, some, List, [], ◌∷◌, ◌++◌, append-nil,
  append_assoc, map, arith, leb, ◌==◌, length, exists, exists-append, select, Unique,
  Unique-append_one, Bool-cases, inl, inr,
}
use openmagpie.Watches.Model.{Item, Feed, Db}
use openmagpie.Watches.Items.{
  SourcePayload, same_item, insert_item, create_items, item_row, found_items, is_existing,
  record_chunk, record_turn, record_rest, record_payloads, record_items,
}

exists-insert_item :
    (i q : Item) (db : Db)
    → exists (same_item q) db.items ≡ true
    → exists (same_item q) (insert_item i db).items ≡ true
unfolding insert_item
exists-insert_item i q db h = elim (Bool-cases (exists (same_item i) db.items)) [
  | inl old ↦ rw old h
  | inr new ↦
      rw new
        (ground (arith, exists-append (same_item q) db.items (record i { id = db.next_id } ∷ [])))
]

module _ (account_id feed_id source_label source_meta : ℕ) where
  abbrev row : SourcePayload → Item
  row = item_row account_id feed_id source_label source_meta

  -- The reference: one insert for each payload.
  unfoldable pub insert_each : List SourcePayload → Db → Db
  insert_each [] db = db
  insert_each (p ∷ payloads) db = insert_each payloads (insert_item (row p) db)

  insert_each-append :
      (xs ys : List SourcePayload) (db : Db)
      → insert_each (xs ++ ys) db ≡ insert_each ys (insert_each xs db)
  unfolding insert_each
  insert_each-append [] ys db = refl
  insert_each-append (x ∷ xs) ys db = insert_each-append xs ys _

  existing-conflict :
      (external_ids : List ℕ) (items : List Item) (p : SourcePayload)
      → is_existing account_id feed_id source_label source_meta
          (found_items account_id feed_id source_label source_meta external_ids items)
          p
        ≡ true
      → exists (same_item (row p)) items ≡ true
  unfolding exists select
  existing-conflict ids [] p h = h
  existing-conflict ids (i ∷ items) p h = ground (arith, existing-conflict ids items p)

  -- The payloads that the query filters out would not have been inserted.
  create-select :
      (existing : SourcePayload → Bool) (payloads : List SourcePayload) (db : Db)
      → ((p : SourcePayload) → existing p ≡ true → exists (same_item (row p)) db.items ≡ true)
      → create_items (map row (select (λ p. not (existing p)) payloads)) db
        ≡ insert_each payloads db
  unfolding create_items select insert_each
  create-select existing [] db h = refl
  create-select existing (p ∷ payloads) db h = elim (Bool-cases (existing p)) [
    | inl old ↦
        let same : insert_item (row p) db ≡ db = unfold insert_item in rw (h p old) in
        rw (old, same) (create-select existing payloads db h)
    | inr new ↦ rw new (
        create-select existing payloads (insert_item (row p) db)
          (λ q e. exists-insert_item (row p) (row q) db (h q e)))
  ]

  record_chunk_lem :
      (chunk : List SourcePayload) (db : Db)
      → (record_chunk account_id feed_id source_label source_meta chunk db).1 ≡ insert_each chunk db
  unfolding record_chunk
  record_chunk_lem chunk db =
      create-select _ chunk db (existing-conflict (map (λ p. p.external_id) chunk) db.items)

  record_rest_lem :
      (chunk : List SourcePayload) (created : ℕ) (db : Db)
      → (record_rest account_id feed_id source_label source_meta chunk created db).1
        ≡ insert_each chunk db
  unfolding record_rest
  record_rest_lem [] created db = unfold insert_each in refl
  record_rest_lem (p ∷ chunk) created db = record_chunk_lem (p ∷ chunk) db

  record_turn_lem :
      (size : ℕ) (chunk : List SourcePayload) (created : ℕ) (db : Db)
      → let (left, created', db') =
          record_turn account_id feed_id source_label source_meta size chunk created db in
        insert_each left db' ≡ insert_each chunk db
  unfolding record_turn
  record_turn_lem size chunk created db = elim (Bool-cases (leb size (length chunk))) [
    | inl full ↦ rw full (unfold insert_each in record_chunk_lem chunk db)
    | inr room ↦ rw room refl
  ]

  record_payloads_lem :
      (size : ℕ) (chunk : List SourcePayload) (created : ℕ) (payloads : List SourcePayload)
      (db : Db)
      → (record_payloads account_id feed_id source_label source_meta size chunk created payloads
          db).1
        ≡ insert_each (chunk ++ payloads) db
  unfolding record_payloads
  record_payloads_lem size chunk created [] db =
      record_rest_lem chunk created db ∙ ap (λ xs. insert_each xs db) (sym (append-nil chunk))
  record_payloads_lem size chunk created (payload ∷ payloads) db =
      let full = chunk ++ payload ∷ [] in
      let (left, created', db') =
        record_turn account_id feed_id source_label source_meta size full created db in
      record_payloads_lem size left created' payloads db'
      ∙ insert_each-append left payloads db'
      ∙ ap (insert_each payloads) (record_turn_lem size full created db)
      ∙ sym (insert_each-append full payloads db)
      ∙ ap (λ xs. insert_each xs db) (append_assoc chunk (payload ∷ []) payloads)

-- The recording of any payloads for a feed of the account, with any chunk size, does not raise,
-- and leaves the tables as one insert that ignores conflicts for each payload would.
pub record_items-eq-insert_each :
    (account_id : ℕ) (feed : Feed) (source_label source_meta chunk_size : ℕ)
    (payloads : List SourcePayload) (db : Db)
    → feed.account_id ≡ account_id
    → (n : ℕ) × (record_items account_id feed source_label source_meta chunk_size payloads db
        ≡ some (n, insert_each account_id feed.id source_label source_meta payloads db))
unfolding record_items
record_items-eq-insert_each a feed label meta size payloads db own =
    let r = record_payloads a feed.id label meta size [] 0 payloads db in
    let same = record_payloads_lem a feed.id label meta size [] 0 payloads db in
    (r.0, ground (arith, own, same))

-- No two items of a feed are the same one.
insert_item-Unique :
    (i : Item) (db : Db) → Unique same_item db.items → Unique same_item (insert_item i db).items
unfolding insert_item
insert_item-Unique i db u = elim (Bool-cases (exists (same_item i) db.items)) [
  | inl old ↦ rw old u
  | inr new ↦ rw new (Unique-append_one same_item (λ x y. ground arith) db.items _ u new)
]

insert_each-Unique :
    (account_id feed_id source_label source_meta : ℕ) (payloads : List SourcePayload) (db : Db)
    → Unique same_item db.items
    → Unique same_item (insert_each account_id feed_id source_label source_meta payloads db).items
unfolding insert_each
insert_each-Unique a f label meta [] db u = u
insert_each-Unique a f label meta (p ∷ payloads) db u =
    insert_each-Unique a f label meta payloads _ (insert_item-Unique _ db u)

-- A recording that does not raise keeps the items distinct: no two have the same feed, source kind
-- and external id.
record_items-Unique :
    (account_id : ℕ) (feed : Feed) (source_label source_meta chunk_size : ℕ)
    (payloads : List SourcePayload) (db db' : Db) (n : ℕ)
    → record_items account_id feed source_label source_meta chunk_size payloads db ≡ some (n, db')
    → Unique same_item db.items
    → Unique same_item db'.items
record_items-Unique a feed label meta size payloads db db' n e u =
    elim (Bool-cases (feed.account_id == a)) [
      | inl own ↦
          let (m, e') =
            record_items-eq-insert_each a feed label meta size payloads db (ground (arith, own)) in
          let same : insert_each a feed.id label meta payloads db ≡ db' = cc in
          subst (λ (d : Db). Unique same_item d.items) same
            (insert_each-Unique a feed.id label meta payloads db u)
      | inr foreign ↦ absurd (unfold record_items in ground arith)
    ]
