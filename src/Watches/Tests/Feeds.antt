-- ===== src/Watches/Tests/Feeds.antt =====
-- The theorems of the recorded items, at the test deployment.
use openmagpie.Prelude.{ℕ, ◌≡◌, refl, some, List, [], ◌∷◌}
use openmagpie.Watches.Model.{Feed, Db}
use openmagpie.Watches.Items.{SourcePayload, record_items}
use openmagpie.Watches.Items.Recorded.{insert_each, record_items-eq-insert_each}
use openmagpie.Watches.Tests.{db}

abbrev feed : Feed
feed = record { id = 30; account_id = 1 }

abbrev payload : ℕ → SourcePayload
payload n = record { source = 3; external_id = n; occurred_at = 50; blob = 6 }

-- The item 100 is there, and 102 comes twice.
abbrev polled : List SourcePayload
polled = payload 100 ∷ payload 102 ∷ payload 102 ∷ payload 103 ∷ []

record_items-eq-insert_each_example :
    (n : ℕ) × (record_items 1 feed 0 0 2 polled db ≡ some (n, insert_each 1 30 0 0 polled db))
record_items-eq-insert_each_example = record_items-eq-insert_each 1 feed 0 0 2 polled db refl

abbrev recorded : Db
recorded = insert_each 1 30 0 0 polled db
