-- ===== src/Watches/Runs/Fencing.antt =====
-- The claim as a token, the run's id and the attempts that the claim burned: `claim_due` and `complete`
-- of apps/core/watches/services/runs under concurrent drains.
use openmagpie.Prelude.{
  ℕ, ◌<◌, ◌≡◌, ◌≢◌, refl, sym, subst, true, false, Option, none, some, List, [], ◌∷◌, arith, ◌==◌,
  exists, update, All, find, Bool-cases, inl, inr, Unique,
}
use openmagpie.Watches.Enums.{RunState, running, Message, is_claimable}
use openmagpie.Watches.Model.{Settings, Run, Db, same_id}
use openmagpie.Watches.Runs.Drain.{is_claim_of, start, claim_one}
use openmagpie.Watches.Runs.Complete.{complete, finish, holds_claim, completion_ts, lost, won}
use openmagpie.Watches.Runs.Sound.{IsKeyed, update-IsKeyed}
use openmagpie.Watches.Runs.Writes.{Writes, Burned, IsBurned, Writes-IsBurned, Writes-IsKeyed}

find-id : (id : ℕ) (rs : List Run) (r : Run) → find (λ q. q.id == id) rs ≡ some r → r.id ≡ id
unfolding find
find-id id [] r e = cc
find-id id (q ∷ rs) r e = ground (arith, find-id id rs r)

no_id : (q : Run) (n : ℕ) (rs : List Run) → exists (same_id q) rs ≡ false → All (Burned q.id n) rs
unfolding exists
no_id q n [] h = tt
no_id q n (r ∷ rs) h = ((λ e. ground arith), no_id q n rs (ground arith))

-- The rows of the id are at least as tried as the one that the look-up found.
find-Burned :
    (id : ℕ) (rs : List Run) (r : Run)
    → Unique same_id rs
    → find (λ q. q.id == id) rs ≡ some r
    → All (Burned r.id r.attempts) rs
unfolding find
find-Burned id [] r u e = tt
find-Burned id (q ∷ rs) r u e = elim (Bool-cases (q.id == id)) [
  | inl hit ↦
      let same : q ≡ r = ground arith in
      subst (λ (x : Run). All (Burned x.id x.attempts) (q ∷ rs)) same
        ((λ _. omega arith), no_id q q.attempts rs u.0)
  | inr miss ↦
      let found : find (λ q. q.id == id) rs ≡ some r = ground arith in
      ((λ e'. ground (arith, find-id id rs r)), find-Burned id rs r u.1 found)
]

find-fresh :
    (id n : ℕ) (rs : List Run) (r : Run)
    → All (λ q. q.id < n) rs
    → find (λ q. q.id == id) rs ≡ some r
    → r.id < n
unfolding find
find-fresh id n [] r h e = cc
find-fresh id n (q ∷ rs) r h e = ground (arith, find-fresh id n rs r h.1)

module _ (settings : Settings) (ts : ℕ) (snapshot : Run) where
  -- Once claimed, no row answers to the snapshot any more.
  unclaimed :
      (rs : List Run)
      → is_claimable snapshot.state ≡ true
      → exists
          (is_claim_of settings snapshot)
          (update (is_claim_of settings snapshot) (start settings ts) rs)
        ≡ false
  unfolding exists update is_claim_of
  unclaimed [] c = refl
  unclaimed (r ∷ rs) c = ground (arith, unclaimed rs c)

  claim_one_cases :
      (db : Db) {claimed : Run} {db' : Db}
      → claim_one settings ts snapshot db ≡ (some claimed, db')
      → (exists (is_claim_of settings snapshot) db.runs ≡ true)
        × (db' ≡ record db {
          runs = update (is_claim_of settings snapshot) (start settings ts) db.runs;
        })
        × (find (λ r. r.id == snapshot.id) db'.runs ≡ some claimed)
  unfolding claim_one
  claim_one_cases db e = elim (Bool-cases (exists (is_claim_of settings snapshot) db.runs)) [
    | inl hit ↦ (hit, ground arith, ground arith)
    | inr miss ↦ absurd (ground arith)
  ]

  claim_one-none :
      (db : Db)
      → exists (is_claim_of settings snapshot) db.runs ≡ false
      → claim_one settings ts snapshot db ≡ (none, db)
  unfolding claim_one
  claim_one-none db h = rw h

  claim_one-IsKeyed :
      (db : Db) {claimed : Run} {db' : Db}
      → IsKeyed db
      → claim_one settings ts snapshot db ≡ (some claimed, db')
      → IsKeyed db'
  claim_one-IsKeyed db k e =
      let (hit, same, found) = claim_one_cases db e in
      subst IsKeyed (sym same) (
        update-IsKeyed (is_claim_of settings snapshot) (start settings ts) (λ a b. ground arith) db
          k)

  -- After a claim the rows of the run's id have burned the attempts that it returned.
  claim_one-IsBurned :
      (db : Db) {claimed : Run} {db' : Db}
      → IsKeyed db
      → claim_one settings ts snapshot db ≡ (some claimed, db')
      → IsBurned claimed.id claimed.attempts db'
  claim_one-IsBurned db {claimed} {db'} k e =
      let (hit, same, found) = claim_one_cases db e in
      let k' = claim_one-IsKeyed db k e in
      record {
        old = find-fresh snapshot.id db'.next_id db'.runs claimed k'.fresh found;
        rows = find-Burned snapshot.id db'.runs claimed k'.ids found;
      }

  no_claim :
      (q : Run) (rs : List Run)
      → q.id ≡ snapshot.id
      → exists (same_id q) rs ≡ false
      → exists (is_claim_of settings snapshot) rs ≡ false
  unfolding exists is_claim_of
  no_claim q [] e h = refl
  no_claim q (r ∷ rs) e h = ground (arith, no_claim q rs e)

  claimed-lt :
      (rs : List Run) (n : ℕ) (r : Run)
      → Unique same_id rs
      → All (Burned snapshot.id n) rs
      → exists (is_claim_of settings snapshot) rs ≡ true
      → find
          (λ q. q.id == snapshot.id)
          (update (is_claim_of settings snapshot) (start settings ts) rs)
        ≡ some r
      → n < r.attempts
  unfolding exists find update is_claim_of
  claimed-lt [] n r u b h e = cc
  claimed-lt (q ∷ rs) n r u b h e = ground (arith, b.0, no_claim q rs, claimed-lt rs n r u.1 b.1)

  -- A claim burns one more attempt than any row of the id had.
  claim_one-burns :
      (db : Db) {claimed : Run} {db' : Db} (n : ℕ)
      → IsKeyed db
      → IsBurned claimed.id n db
      → claim_one settings ts snapshot db ≡ (some claimed, db')
      → n < claimed.attempts
  claim_one-burns db {claimed} n k b e =
      let (hit, same, found) = claim_one_cases db e in
      let id : claimed.id ≡ snapshot.id = find-id snapshot.id _ claimed found in
      claimed-lt db.runs n claimed k.ids (subst (λ i. All (Burned i n) db.runs) id b.rows) hit
        (subst (λ (d : Db). find (λ q. q.id == snapshot.id) d.runs ≡ some claimed) same found)

  -- Two drains with the same snapshot: the second claim finds no row and changes nothing.
  claim_one_twice :
      (later : ℕ) (db : Db) {claimed : Run} {db' : Db}
      → is_claimable snapshot.state ≡ true
      → claim_one settings ts snapshot db ≡ (some claimed, db')
      → exists (is_claim_of settings snapshot) db'.runs ≡ false
  claim_one_twice later db {claimed} {db'} c e =
      let (hit, same, found) = claim_one_cases db e in
      subst (λ (d : Db). exists (is_claim_of settings snapshot) d.runs ≡ false) (sym same)
        (unclaimed db.runs c)

-- Two drains with the same snapshot of a claimable run: once one has claimed it, the other's claim
-- returns no run and changes nothing.
pub claim_one_exclusive :
    (settings : Settings) (ts later : ℕ) (snapshot claimed : Run) (db db' : Db)
    → is_claimable snapshot.state ≡ true
    → claim_one settings ts snapshot db ≡ (some claimed, db')
    → claim_one settings later snapshot db' ≡ (none, db')
claim_one_exclusive settings ts later snapshot claimed db db' c e =
    claim_one-none settings later snapshot db' (claim_one_twice settings ts snapshot later db c e)

module _ (settings : Settings) (run : Run) where
  outpaced :
      (rs : List Run) (n : ℕ)
      → run.attempts < n
      → All (Burned run.id n) rs
      → exists (holds_claim run) rs ≡ false
  unfolding exists
  outpaced [] n h b = refl
  outpaced (r ∷ rs) n h b = ground (arith, b.0, outpaced rs n h b.1)

  complete_lost :
      (account_id : ℕ) (state : RunState) (result : ℕ) (error : Message) (delivery_id kind now : ℕ)
      (db : Db)
      → run.account_id ≡ account_id
      → exists (holds_claim run) db.runs ≡ false
      → complete settings account_id run state result error delivery_id kind now db ≡ (lost, db)
  unfolding complete
  complete_lost a state result error d k now db own h = ground (arith, own, h)

  written :
      (state : RunState) (result : ℕ) (error : Message) (delivery_id kind now : ℕ) (ct : Option ℕ)
      (rs : List Run)
      → state ≢ running
      → exists
          (holds_claim run)
          (update (holds_claim run) (finish state result error delivery_id kind ct now) rs)
        ≡ false
  unfolding exists update
  written state result error d k now ct [] h = refl
  written state result error d k now ct (r ∷ rs) h =
      ground (arith, written state result error d k now ct rs h)

  -- One claim, two completions: once the first has written an outcome other than RUNNING, the
  -- second is lost and changes nothing.
  pub complete_once :
      (account_id : ℕ) (state : RunState) (result : ℕ) (error : Message) (delivery_id kind now : ℕ)
      (state' : RunState) (result' : ℕ) (error' : Message) (delivery_id' kind' now' : ℕ) (db : Db)
      (done : Run) (db' : Db)
      → state ≢ running
      → complete settings account_id run state result error delivery_id kind now db
        ≡ (won done, db')
      → complete settings account_id run state' result' error' delivery_id' kind' now' db'
        ≡ (lost, db')
  complete_once a state result error d k now state' result' error' d' k' now' db done db' h e =
      complete_lost a state' result' error' d' k' now' db' own (
        subst (λ (x : Db). exists (holds_claim run) x.runs ≡ false) same
          (written state result error d k now (completion_ts settings state run.attempts now)
            db.runs h))
    where
      own : run.account_id ≡ a
      own = unfold complete in ground arith

      same :
          record db {
            runs =
                update
                  (holds_claim run)
                  (finish state result error d k
                    (completion_ts settings state run.attempts now)
                    now)
                  db.runs;
          }
          ≡ db'
      same = unfold complete in ground arith

-- Let a run be claimed from a table whose keys are sound; let any writes follow, and let a second
-- claim take a run of the same id; let any writes follow. Then the completion by the first claim,
-- under the run's own account, is lost and changes nothing.
pub stale_completion_lost :
    (settings : Settings) (ts ts' : ℕ) (snapshot snapshot' first second : Run) (a b c d e : Db)
    (state : RunState) (result : ℕ) (error : Message) (delivery_id kind now : ℕ)
    → IsKeyed a
    → claim_one settings ts snapshot a ≡ (some first, b)
    → Writes b c
    → claim_one settings ts' snapshot' c ≡ (some second, d)
    → second.id ≡ first.id
    → Writes d e
    → complete settings first.account_id first state result error delivery_id kind now e ≡ (lost, e)
stale_completion_lost settings ts ts' snapshot snapshot' first second a b c d e state result error
      delivery_id kind now ka p w q same w' =
    complete_lost settings first first.account_id state result error delivery_id kind now e refl (
      outpaced settings first e.runs second.attempts more (
        subst (λ i. All (Burned i second.attempts) e.runs) same
          (Writes-IsBurned second.id second.attempts w'
            (claim_one-IsBurned settings ts' snapshot' c kc q)).rows))
  where
    kc : IsKeyed c
    kc = Writes-IsKeyed w (claim_one-IsKeyed settings ts snapshot a ka p)

    tried : IsBurned second.id first.attempts c
    tried =
        subst (λ i. IsBurned i first.attempts c) (sym same)
          (Writes-IsBurned first.id first.attempts w
            (claim_one-IsBurned settings ts snapshot a ka p))

    more : first.attempts < second.attempts
    more = claim_one-burns settings ts' snapshot' c first.attempts kc tried q
