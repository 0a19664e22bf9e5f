-- ===== src/Links/ShortLinks/Codes.antt =====
-- The codes of apps/core/links/services/short_link.py.
use openmagpie.Prelude.{
  ℕ, suc, ◌≡◌, refl, sym, ◌∙◌, Bool, true, false, Option, none, some, List, [], ◌∷◌, ◌++◌, ◌==◌,
  exists, find, take, inl, inr, arith, Bool-cases, Option-cases, Unique, Unique-append_one, All,
  find-append, find-absent, find-remove_found, exists-remove_self, remove, or_else, ==-refl,
}
use openmagpie.Links.ShortLinks.{
  ShortLink, Links, LinkError, has_code, insert, insert_drawn, insert_with_random_code, create,
  find_by_code, delete, max_code_tries,
}

-- The unique constraint on `code`.
abbrev pub HasUniqueCodes : Links → Type 0
HasUniqueCodes t = Unique (λ a b. b.code == a.code) t.links

-- What a new link comes to.
abbrev IsMinted : ℕ → Links → ShortLink → Links → Type 0
IsMinted url t link after =
    (find_by_code link.code after ≡ some link)
    × HasUniqueCodes after
    × (link.url ≡ url)
    × (after.clicks ≡ t.clicks)

insert-IsMinted :
    (code url : ℕ) (t after : Links) (link : ShortLink)
    → HasUniqueCodes t
    → insert code url t ≡ some (link, after)
    → IsMinted url t link after
unfolding insert
insert-IsMinted code url t after link u e = elim (Bool-cases (exists (has_code code) t.links)) [
  | inl taken ↦ absurd (ground arith)
  | inr free ↦
      let minted : link ≡ new = ground arith in
      let written : after ≡ record t { links = t.links ++ new ∷ []; next_id = suc t.next_id } =
        ground arith in
      rw (minted, written) (found free, unique free, refl, refl)
]
  where
    new : ShortLink
    new = record { id = t.next_id; code = code; url = url }

    found :
        exists (has_code code) t.links ≡ false
        → find_by_code code (record t { links = t.links ++ new ∷ []; next_id = suc t.next_id })
          ≡ some new
    found free =
        unfold find_by_code has_code find or_else in
        rw
          (
            find-append (has_code code) t.links (new ∷ []),
            find-absent (has_code code) (has_code code) (λ x h. h) t.links free,
            ==-refl code,
          )
          refl

    unique :
        exists (has_code code) t.links ≡ false
        → Unique (λ a b. b.code == a.code) (t.links ++ new ∷ [])
    unique free =
        unfold has_code in
        Unique-append_one (λ a b. b.code == a.code) (λ a b. ground arith) t.links new u free

insert_drawn-taken :
    (code : ℕ) (codes : List ℕ) (url : ℕ) (t : Links)
    → insert code url t ≡ none
    → insert_drawn (code ∷ codes) url t ≡ insert_drawn codes url t
unfolding insert_drawn
insert_drawn-taken code codes url t taken = rw (taken, insert_drawn) refl

insert-taken :
    (code url : ℕ) (t : Links) → exists (has_code code) t.links ≡ true → insert code url t ≡ none
unfolding insert
insert-taken code url t taken = rw taken refl

insert_drawn-IsMinted :
    (codes : List ℕ) (url : ℕ) (t after : Links) (link : ShortLink)
    → HasUniqueCodes t
    → insert_drawn codes url t ≡ (inr link, after)
    → IsMinted url t link after
unfolding insert_drawn
insert_drawn-IsMinted [] url t after link u e = absurd (ground arith)
insert_drawn-IsMinted (code ∷ codes) url t after link u e =
    elim (Option-cases (insert code url t)) [
      | inl taken ↦
          insert_drawn-IsMinted codes url t after link u
            (sym (insert_drawn-taken code codes url t taken) ∙ e)
      | inr ((minted, written), ok) ↦ insert-IsMinted code url t after link u (ok ∙ ground arith)
    ]

-- When no two links have one code, a `create` that succeeds, with a given slug or with drawn
-- codes, gives a link that is found by its code and has the stripped url; the codes stay unique
-- and no click changes.
pub create-find_by_code :
    (strip : ℕ → ℕ) (is_absolute is_slug : ℕ → Bool) (url : ℕ) (code : Option ℕ) (draws : List ℕ)
    (t after : Links) (link : ShortLink)
    → HasUniqueCodes t
    → create strip is_absolute is_slug url code draws t ≡ (inr link, after)
    → (find_by_code link.code after ≡ some link)
      × HasUniqueCodes after
      × (link.url ≡ strip url)
      × (after.clicks ≡ t.clicks)
unfolding create
create-find_by_code strip is_absolute is_slug url code draws t after link u e =
    elim (Bool-cases (strip url == 0)) [
      | inl blank ↦ absurd (ground arith)
      | inr some_url ↦ elim (Bool-cases (is_absolute (strip url))) [
        | inr relative ↦ absurd (ground arith)
        | inl absolute ↦ elim (Option-cases code) [
          | inl drawn ↦
              insert_drawn-IsMinted (take max_code_tries draws) (strip url) t after link u
                (unfold insert_with_random_code in ground arith)
          | inr (given, custom) ↦ elim (Bool-cases (is_slug (strip given))) [
            | inr malformed ↦ absurd (ground arith)
            | inl slug ↦ elim (Option-cases (insert (strip given) (strip url) t)) [
              | inl taken ↦ absurd (ground arith)
              | inr ((minted, written), ok) ↦
                  insert-IsMinted (strip given) (strip url) t after link u (ok ∙ ground arith)
            ]
          ]
        ]
      ]
    ]

-- The draws fail together, each on a link that has the code.
insert_drawn-fails :
    (codes : List ℕ) (url : ℕ) (t after : Links) (error : LinkError)
    → insert_drawn codes url t ≡ (inl error, after)
    → All (λ code. exists (has_code code) t.links ≡ true) codes
unfolding insert_drawn insert
insert_drawn-fails [] url t after error e = tt
insert_drawn-fails (code ∷ codes) url t after error e =
    elim (Bool-cases (exists (has_code code) t.links)) [
      | inl taken ↦ (
        taken,
        insert_drawn-fails codes url t after error
            (sym (insert_drawn-taken code codes url t (insert-taken code url t taken)) ∙ e),
      )
      | inr free ↦ absurd (ground arith)
    ]

-- A random code fails only after eight draws, each of them taken, and then nothing is written.
insert_with_random_code-fails :
    (draws : List ℕ) (url : ℕ) (t after : Links) (error : LinkError)
    → insert_with_random_code draws url t ≡ (inl error, after)
    → All (λ code. exists (has_code code) t.links ≡ true) (take max_code_tries draws) × (after ≡ t)
unfolding insert_with_random_code
insert_with_random_code-fails draws url t after error e = (
  insert_drawn-fails (take max_code_tries draws) url t after error e,
  kept (take max_code_tries draws) e,
)
  where
    kept : (codes : List ℕ) → insert_drawn codes url t ≡ (inl error, after) → after ≡ t
    kept [] e = unfold insert_drawn in ground arith
    kept (code ∷ codes) e = elim (Option-cases (insert code url t)) [
      | inl taken ↦ kept codes (sym (insert_drawn-taken code codes url t taken) ∙ e)
      | inr ((minted, written), ok) ↦ unfold insert_drawn in absurd (ground arith)
    ]

delete-found :
    (code : ℕ) (t : Links) (link : ShortLink)
    → find_by_code code t ≡ some link
    → delete code t ≡ (
      true,
      record t {
        clicks = remove (λ click. click.short_link_id == link.id) t.clicks;
        links = remove (λ other. other.id == link.id) t.links;
      },
    )
unfolding delete find_by_code
delete-found code t link found = rw (found, delete) refl

-- A code that was revoked is found no more, and no click of its link is left.
delete-find_by_code :
    (code : ℕ) (t : Links) (link : ShortLink)
    → HasUniqueCodes t
    → find_by_code code t ≡ some link
    → (find_by_code code (delete code t).1 ≡ none)
      × (exists (λ click. click.short_link_id == link.id) (delete code t).1.clicks ≡ false)
unfolding find_by_code has_code
delete-find_by_code code t link u found = rw (delete-found code t link found) (
  find-remove_found (has_code code) (λ other. other.id == link.id) (λ a b. b.code == a.code)
      (λ x y h. ground arith) t.links link u found (==-refl link.id),
  exists-remove_self (λ click. click.short_link_id == link.id) t.clicks,
)
