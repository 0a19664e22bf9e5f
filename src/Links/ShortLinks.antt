-- ===== src/Links/ShortLinks.antt =====
-- apps/core/links/services/short_link.py: short links are minted, resolved and revoked, and their
-- clicks are recorded.
pub mod Codes
pub mod Clicks
use openmagpie.Prelude.{
  ℕ, suc, ◌*◌, Bool, true, false, not, ◌&&◌, Option, none, some, List, [], ◌∷◌, ◌++◌, ◌==◌,
  if◌then◌else◌, exists, find, remove, select, count, length, take, ◌⊎◌, inl, inr,
}
use openmagpie.Common.Cache.{Cache}

-- The blank text is 0.
pub record ShortLink : Type 0 where
  pub id : ℕ
  pub code : ℕ
  pub url : ℕ

pub record ClickEvent : Type 0 where
  pub short_link_id : ℕ
  pub ip_hash : ℕ
  pub country : List ℕ
  pub props : ℕ

-- The tables, with the next id of a link.
pub record Links : Type 0 where
  pub links : List ShortLink
  pub clicks : List ClickEvent
  pub next_id : ℕ

pub data LinkError : Type 0 where
  url_required invalid_url invalid_code code_taken no_unique_code : LinkError

unfoldable pub has_code : ℕ → ShortLink → Bool
has_code code link = link.code == code

-- `_insert`: `none` is the IntegrityError of the unique code, which rolls its savepoint back.
unfoldable pub insert : ℕ → ℕ → Links → Option (ShortLink × Links)
unfolding exists has_code
insert code url t =
    let link : ShortLink = record { id = t.next_id; code = code; url = url } in
    if exists (has_code code) t.links
    then none
    else some (link, record t { links = t.links ++ link ∷ []; next_id = suc t.next_id })

-- `_MAX_CODE_TRIES`.
abbrev pub max_code_tries : ℕ
max_code_tries = 8

-- The loop of `_insert_with_random_code`, on the codes that it draws.
unfoldable pub insert_drawn : List ℕ → ℕ → Links → (LinkError ⊎ ShortLink) × Links
unfolding insert
insert_drawn [] url t = (inl no_unique_code, t)
insert_drawn (code ∷ codes) url t =
    let rest = insert_drawn codes url t in
    elim (insert code url t) [ none ↦ rest | some (link, after) ↦ (inr link, after) ]

unfoldable pub insert_with_random_code : List ℕ → ℕ → Links → (LinkError ⊎ ShortLink) × Links
unfolding insert_drawn
insert_with_random_code draws url t = insert_drawn (take max_code_tries draws) url t

-- `strip` is `str.strip`, `is_absolute` the test on `urlparse`'s parts, `is_slug` `SLUG_RE.match`.
module _ (strip : ℕ → ℕ) (is_absolute is_slug : ℕ → Bool) where
  unfoldable pub create : ℕ → Option ℕ → List ℕ → Links → (LinkError ⊎ ShortLink) × Links
  unfolding insert insert_with_random_code
  create url code draws t =
      let clean_url = strip url in
      if clean_url == 0
      then (inl url_required, t)
      else if not (is_absolute clean_url)
      then (inl invalid_url, t)
      else elim code [
        | none ↦ insert_with_random_code draws clean_url t
        | some given ↦
            let slug = strip given in
            if not (is_slug slug) then (inl invalid_code, t) else elim (insert slug clean_url t) [
              | none ↦ (inl code_taken, t)
              | some (link, after) ↦ (inr link, after)
            ]
      ]

unfoldable pub find_by_code : ℕ → Links → Option ShortLink
unfolding find has_code
find_by_code code t = find (has_code code) t.links

unfoldable pub delete : ℕ → Links → Bool × Links
unfolding find has_code remove
delete code t = elim (find (has_code code) t.links) [
  | none ↦ (false, t)
  | some link ↦ (
    true,
    record t {
      clicks = remove (λ click. click.short_link_id == link.id) t.clicks;
      links = remove (λ other. other.id == link.id) t.links;
    },
  )
]

-- What a click's request has; `cf_ip` and `cf_country` are the headers of the tunnel, the country
-- by its characters.
pub record ClickRequest : Type 0 where
  pub cf_ip : ℕ
  pub cf_country : List ℕ
  pub remote_addr : ℕ
  pub props : ℕ

-- `trusted` is SHORTLINK_TRUST_CF_HEADERS.
unfoldable pub client_ip : Bool → ClickRequest → ℕ
client_ip trusted request =
    if trusted && not (request.cf_ip == 0) then request.cf_ip else request.remote_addr

abbrev pub country_code_length : ℕ
country_code_length = 2

unfoldable pub client_country : Bool → ClickRequest → List ℕ
client_country trusted request = if trusted then take country_code_length request.cf_country else []

abbrev pub click_dedup_window_seconds : ℕ
click_dedup_window_seconds = 30 * 60

-- `hash_ip` is the keyed hash; `reachable` is whether the cache answers or raises, `inserts` whether
-- the database takes the row or raises.
module _ {C : Type 0} (cache : Cache (ℕ × ℕ) ℕ C) (trusted : Bool) (hash_ip : ℕ → ℕ) where
  unfoldable pub seen_recently : Bool → ℕ → ℕ → ℕ → C → Bool × C
  seen_recently reachable now link_id ip_hash c =
      let (added, after) = cache.add now (link_id, ip_hash) 1 click_dedup_window_seconds c in
      if reachable then (not added, after) else (false, c)

  unfoldable pub record_click :
      (reachable inserts : Bool) → ℕ → ShortLink → ClickRequest → Links × C → Links × C
  unfolding client_ip client_country seen_recently
  record_click reachable inserts now link request (t, c) =
      let ip = client_ip trusted request in
      let ip_hash = if ip == 0 then 0 else hash_ip ip in
      let (seen, after) = seen_recently reachable now link.id ip_hash c in
      let click : ClickEvent = record {
        short_link_id = link.id;
        ip_hash = ip_hash;
        country = client_country trusted request;
        props = request.props;
      } in
      let written = if inserts then record t { clicks = t.clicks ++ click ∷ [] } else t in
      if ip_hash == 0 then (written, c) else if seen then (t, after) else (written, after)

-- `stats_for`, the total and the unique visitors of one link.
unfoldable pub distinct : List ℕ → List ℕ → ℕ
unfolding exists
distinct seen [] = 0
distinct seen (x ∷ xs) =
    let known = distinct seen xs in
    let new = suc (distinct (x ∷ seen) xs) in if exists (λ y. y == x) seen then known else new

unfoldable pub stats_total : ℕ → Links → ℕ
unfolding count
stats_total link_id t = count (λ click. click.short_link_id == link_id) t.clicks

unfoldable pub ip_hashes : List ClickEvent → List ℕ
ip_hashes [] = []
ip_hashes (click ∷ clicks) = click.ip_hash ∷ ip_hashes clicks

unfoldable pub stats_unique : ℕ → Links → ℕ
unfolding select ip_hashes distinct
stats_unique link_id t = distinct [] (
    ip_hashes
      (select (λ click. click.short_link_id == link_id && not (click.ip_hash == 0)) t.clicks))
