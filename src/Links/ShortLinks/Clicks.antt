-- ===== src/Links/ShortLinks/Clicks.antt =====
-- The clicks of apps/core/links/services/short_link.py.
use openmagpie.Prelude.{
  ℕ, suc, ◌+◌, ◌≤◌, ◌<◌, ◌≡◌, refl, ◌∙◌, ap, Bool, true, false, not, ◌&&◌, none, some, List, [],
  ◌∷◌, ◌==◌, select, count, arith, length, ◌++◌, if◌then◌else◌,
}
use openmagpie.Common.Cache.{Cache}
use openmagpie.Links.ShortLinks.{
  ShortLink, Links, ClickEvent, ClickRequest, client_ip, seen_recently, record_click,
  click_dedup_window_seconds, stats_total, stats_unique, distinct, ip_hashes,
}

distinct-length : (seen xs : List ℕ) → distinct seen xs ≤ length xs
unfolding distinct
distinct-length seen [] = omega arith
distinct-length seen (x ∷ xs) =
    ground (arith, distinct-length seen xs, distinct-length (x ∷ seen) xs)

length-ip_hashes : (clicks : List ClickEvent) → length (ip_hashes clicks) ≡ length clicks
unfolding ip_hashes
length-ip_hashes [] = refl
length-ip_hashes (click ∷ clicks) = ap suc (length-ip_hashes clicks)

length-select :
    (p q : ClickEvent → Bool) (clicks : List ClickEvent)
    → length (select (λ click. p click && q click) clicks) ≤ count p clicks
unfolding select count
length-select p q [] = omega arith
length-select p q (click ∷ clicks) = ground (arith, length-select p q clicks)

-- A link has no more unique visitors than recorded clicks.
stats_unique_bounds : (link_id : ℕ) (t : Links) → stats_unique link_id t ≤ stats_total link_id t
unfolding stats_unique stats_total
stats_unique_bounds link_id t = omega (
  arith,
  distinct-length [] (
      ip_hashes
        (select (λ click. click.short_link_id == link_id && not (click.ip_hash == 0)) t.clicks)),
  length-ip_hashes
      (select (λ click. click.short_link_id == link_id && not (click.ip_hash == 0)) t.clicks),
  length-select (λ click. click.short_link_id == link_id) (λ click. not (click.ip_hash == 0))
      t.clicks,
)

count-append_one :
    (p : ClickEvent → Bool) (clicks : List ClickEvent) (click : ClickEvent)
    → count p (clicks ++ click ∷ []) ≡ count p clicks + (if p click then 1 else 0)
unfolding count
count-append_one p [] click = ground arith
count-append_one p (x ∷ clicks) click = ground (arith, count-append_one p clicks click)

-- A click that the database may have taken.
written-stats_total :
    (n : ℕ) (click : ClickEvent) (inserts : Bool) (t : Links)
    → stats_total n (if inserts then record t { clicks = t.clicks ++ click ∷ [] } else t)
      ≡ stats_total n t + (if inserts && (click.short_link_id == n) then 1 else 0)
unfolding stats_total
written-stats_total n click true t = count-append_one (λ x. x.short_link_id == n) t.clicks click
written-stats_total n click false t = omega arith

module _ {C : Type 0} (cache : Cache (ℕ × ℕ) ℕ C) (trusted : Bool) (hash_ip : ℕ → ℕ) where
  -- When the visitor's address and its hash are not blank, the dedup cache can be reached and does
  -- not know the visitor, two clicks from the same address on the same link within the dedup
  -- window count as the first one alone: the second leaves the tables as they are, whatever else
  -- its request has, and of the totals that of the link is one more than before the two, if the
  -- database took the first click, and every other is as before.
  pub record_click-record_click :
      (inserts again : Bool) (now later n : ℕ) (link : ShortLink) (request other : ClickRequest)
      (t : Links) (c : C)
      → client_ip trusted other ≡ client_ip trusted request
      → (client_ip trusted request == 0) ≡ false
      → (hash_ip (client_ip trusted request) == 0) ≡ false
      → cache.get now (link.id, hash_ip (client_ip trusted request)) c ≡ none
      → now ≤ later
      → later < now + click_dedup_window_seconds
      → (record_click cache trusted hash_ip true again later link other
            (record_click cache trusted hash_ip true inserts now link request (t, c))).0
          ≡ (record_click cache trusted hash_ip true inserts now link request (t, c)).0
        × (stats_total n
              (record_click cache trusted hash_ip true again later link other
                (record_click cache trusted hash_ip true inserts now link request (t, c))).0
            ≡ stats_total n t + (if inserts && (link.id == n) then 1 else 0))
  unfolding record_click seen_recently
  record_click-record_click inserts again now later n link request other t c same some_ip some_hash
        unknown order early =
      rw
        (
          same,
          some_ip,
          some_hash,
          cache.add_absent now click_dedup_window_seconds
              (link.id, hash_ip (client_ip trusted request)) 1 c unknown,
        )
        (rw (cache.add_present later click_dedup_window_seconds name 1 1 _ shown)
          (refl, written-stats_total n _ inserts t))
    where
      name : ℕ × ℕ
      name = (link.id, hash_ip (client_ip trusted request))

      shown : cache.get later name (cache.set now name 1 click_dedup_window_seconds c) ≡ some 1
      shown = cache.get-set now later click_dedup_window_seconds name 1 c order ∙ ground arith
