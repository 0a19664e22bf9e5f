-- ===== src/Links/Tests.antt =====
-- The theorems of the short links, at a table with one link.
use openmagpie.Prelude.{
  ◌+◌, ℕ, ◌≡◌, ◌↔◌, refl, Bool, true, false, ◌&&◌, none, some, [], ◌∷◌, arith, exists, ◌==◌,
}
use openmagpie.Common.Cache.{Cache}
use openmagpie.Common.Memory.{Memory, memory}
use openmagpie.Links.ShortLinks.{
  ShortLink, ClickRequest, Links, client_ip, create, find_by_code, record_click, stats_total,
}
use openmagpie.Links.ShortLinks.Codes.{HasUniqueCodes, create-find_by_code}
use openmagpie.Links.ShortLinks.Clicks.{record_click-record_click}

abbrev home : ShortLink
home = record { id = 1; code = 51; url = 80 }

abbrev table : Links
table = record { links = home ∷ []; clicks = []; next_id = 2 }

abbrev same : ℕ → ℕ
same n = n

abbrev all : ℕ → Bool
all n = true

abbrev minted : ShortLink
minted = record { id = 2; code = 52; url = 81 }

abbrev after : Links
after = record { links = home ∷ minted ∷ []; clicks = []; next_id = 3 }

create-find_by_code_example :
    (find_by_code 52 after ≡ some minted)
    × HasUniqueCodes after
    × (minted.url ≡ 81)
    × (after.clicks ≡ table.clicks)
unfolding exists
create-find_by_code_example =
    create-find_by_code same all all 81 none (51 ∷ 52 ∷ []) table after minted (refl, tt)
      (unfold create in refl)

abbrev pair_eq : ℕ × ℕ → ℕ × ℕ → Bool
pair_eq (a, b) (c, d) = a == c && b == d

pair_iff : (p q : ℕ × ℕ) → (pair_eq p q ≡ true) ↔ (p ≡ q)
pair_iff (a, b) (c, d) = ground arith

abbrev dedup : Cache (ℕ × ℕ) ℕ (Memory (ℕ × ℕ) ℕ)
dedup = memory pair_eq pair_iff

abbrev none_seen : Memory (ℕ × ℕ) ℕ
none_seen key = none

abbrev visit : ClickRequest
visit = record { cf_ip = 0; cf_country = []; remote_addr = 9; props = 3 }

abbrev crawl : ClickRequest
crawl = record { cf_ip = 0; cf_country = []; remote_addr = 9; props = 4 }

record_click-record_click_example :
    (record_click dedup false same true true 160 home crawl
        (record_click dedup false same true true 100 home visit (table, none_seen))).0
      ≡ (record_click dedup false same true true 100 home visit (table, none_seen)).0
    × (stats_total 1
          (record_click dedup false same true true 160 home crawl
            (record_click dedup false same true true 100 home visit (table, none_seen))).0
        ≡ stats_total 1 table + 1)
record_click-record_click_example =
    record_click-record_click dedup false same true true 100 160 1 home visit crawl table none_seen
      (unfold client_ip in refl) (unfold client_ip in refl) (unfold client_ip in refl) refl
      (omega arith) (omega arith)
