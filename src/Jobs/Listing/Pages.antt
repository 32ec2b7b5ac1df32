-- ===== src/Jobs/Listing/Pages.antt =====
-- What a page of the list holds, and how pages join.
use Prim.Native.Nat.add
use mathlib.Core.Path.{ap₂}
use native.Mathlib.Numerals.{add-one}
use kyrgstudio.Base.{
  sym, ℕ, zero, suc, ◌+◌, ◌*◌, ◌≤◌, ◌≡◌, refl, ◌∙◌, ap, List, [], ◌∷◌, ◌++◌, arith, ltb,
}
use kyrgstudio.Base.Int.{pos}
use kyrgstudio.Base.Lists.{length, take, drop, All, length-take, length-drop, Among}
use kyrgstudio.Database.{ok, query}
use kyrgstudio.Jobs.{Job, Tables}
use kyrgstudio.Jobs.Fields.{
  Scalar, int, max_page_limit, normalize_limit, normalize_positive_integer,
}
use kyrgstudio.Jobs.Store.{JobDb}
use kyrgstudio.Jobs.Store.Transitions.{Keyed}
use kyrgstudio.Jobs.Listing.{
  ListRequest, ListQuery, JobListPage, matching, fetched, page_of, normalize_request,
  list_user_jobs,
}
use kyrgstudio.Jobs.Listing.Order.{
  Fits, Before, InOrder, length-matching, matching-Fits, matching-InOrder, matching-Among,
}

module _ {A : Type 0} where
  take-take_more : (n : ℕ) (xs : List A) → take n (take (suc n) xs) ≡ take n xs
  take-take_more zero xs = refl
  take-take_more (suc n) [] = refl
  take-take_more (suc n) (x ∷ xs) = rw (take-take_more n xs)

  abbrev nothing : List A
  nothing = []

  take-nil : (n : ℕ) → take n nothing ≡ []
  take-nil zero = refl
  take-nil (suc n) = refl

  drop-nil : (n : ℕ) → drop n nothing ≡ []
  drop-nil zero = refl
  drop-nil (suc n) = refl

  take-append-take-drop :
      (n m : ℕ) (xs : List A) → take n xs ++ take m (drop n xs) ≡ take (n + m) xs
  take-append-take-drop zero m xs = ap (λ (k : ℕ). take k xs) (omega arith)
  take-append-take-drop (suc n) m [] = take-nil m ∙ sym (take-nil (suc n + m))
  take-append-take-drop (suc n) m (x ∷ xs) = rw (add.suc, take-append-take-drop n m xs)

  drop-drop : (n m : ℕ) (xs : List A) → drop m (drop n xs) ≡ drop (n + m) xs
  drop-drop zero m xs = ap (λ (k : ℕ). drop k xs) (omega arith)
  drop-drop (suc n) m [] = drop-nil m ∙ sym (drop-nil (suc n + m))
  drop-drop (suc n) m (x ∷ xs) = rw add.suc (drop-drop n m xs)

  All-take : (P : A → Type 0) (n : ℕ) (xs : List A) → All P xs → All P (take n xs)
  All-take P zero xs h = tt
  All-take P (suc n) [] h = tt
  All-take P (suc n) (x ∷ xs) h = (h.0, All-take P n xs h.1)

  All-drop : (P : A → Type 0) (n : ℕ) (xs : List A) → All P xs → All P (drop n xs)
  All-drop P zero xs h = h
  All-drop P (suc n) [] h = tt
  All-drop P (suc n) (x ∷ xs) h = All-drop P n xs h.1

InOrder-take : (n : ℕ) (jobs : List Job) → InOrder jobs → InOrder (take n jobs)
InOrder-take zero jobs h = tt
InOrder-take (suc n) [] h = tt
InOrder-take (suc n) (job ∷ jobs) h = (All-take (Before job) n jobs h.0, InOrder-take n jobs h.1)

InOrder-drop : (n : ℕ) (jobs : List Job) → InOrder jobs → InOrder (drop n jobs)
InOrder-drop zero jobs h = h
InOrder-drop (suc n) [] h = tt
InOrder-drop (suc n) (job ∷ jobs) h = InOrder-drop n jobs h.1

-- The page of a query: its slice of the matching rows, and whether rows are left behind it.
abbrev pub page : ListQuery → Tables → JobListPage
page q t = record {
  items = take q.limit (drop q.offset (matching q t));
  has_more = ltb (q.offset + q.limit) (length (matching q t));
}

page_of-fetched : (q : ListQuery) (t : Tables) → page_of q (fetched q t) ≡ page q t
unfolding page_of fetched
page_of-fetched q t =
    ap₂ (λ items more. record { items = items; has_more = more })
      (rw add-one (take-take_more q.limit (drop q.offset (matching q t)))) more
  where
    rows : List Job
    rows = drop q.offset (matching q t)

    more :
        ltb q.limit (length (take (q.limit + 1) rows))
        ≡ ltb (q.offset + q.limit) (length (matching q t))
    more =
        ground (arith, length-take {0} (q.limit + 1) rows, length-drop {0} q.offset (matching q t))

-- While the database answers, a request that passes the checks gets its slice of the matching
-- rows, with has_more exactly if the table has matching rows behind the slice, and changes
-- nothing.
pub list_user_jobs-page :
    (r : ListRequest) (q : ListQuery) (db : JobDb)
    → normalize_request r ≡ ok q
    → db.outages ≡ []
    → list_user_jobs r db ≡ (ok (page q db.tables), db)
unfolding list_user_jobs query
list_user_jobs-page r q db checked calm = ground (arith, checked, page_of-fetched q db.tables)

normalize_limit-le :
    (value : Scalar) (n : ℕ) → normalize_limit value "list_user_jobs" ≡ ok n → n ≤ max_page_limit
unfolding normalize_limit
normalize_limit-le (int (pos zero)) n h = cc
normalize_limit-le (int (pos (suc k))) n h = ground arith
normalize_limit-le value n h = cc

limit-le : (r : ListRequest) (q : ListQuery) → normalize_request r ≡ ok q → q.limit ≤ max_page_limit
unfolding normalize_request
limit-le r q checked = ground (arith, normalize_limit-le r.limit q.limit)

user_id-request :
    (r : ListRequest) (q : ListQuery) → normalize_request r ≡ ok q → r.user_id ≡ int (pos q.user_id)
unfolding normalize_request normalize_positive_integer
user_id-request r q checked = ground arith

-- A list that returned passed the checks, and returned a page of the table.
list_user_jobs-of :
    (r : ListRequest) (db : JobDb) (p : JobListPage)
    → (list_user_jobs r db).0 ≡ ok p
    → (q : ListQuery) × (normalize_request r ≡ ok q) × (p ≡ page_of q (fetched q db.tables))
unfolding list_user_jobs query
list_user_jobs-of r db p returned = ground arith

-- A list that returned a page, from a table with unique keys and whatever the database does,
-- passed the checks with the user of the request, and the page has at most 100 rows, all of them
-- of this user and with the id, the status and the pipeline type of the checked request, where it
-- has one; each row was created later than all that follow it, or at the same time and has the
-- greater key.
pub page_holds :
    (r : ListRequest) (db : JobDb) (p : JobListPage)
    → Keyed db.tables.next_id db.tables.jobs
    → (list_user_jobs r db).0 ≡ ok p
    → (q : ListQuery) × (normalize_request r ≡ ok q)
      × (r.user_id ≡ int (pos q.user_id))
      × (length p.items ≤ max_page_limit)
      × All (Fits q) p.items
      × InOrder p.items
page_holds r db p keyed returned =
    let (q, checked, is_page) = list_user_jobs-of r db p returned in
    let rows = matching q db.tables in
    (
      q,
      checked,
      user_id-request r q checked,
      rw (is_page, page_of-fetched)
          (omega (arith, length-take {0} q.limit (drop q.offset rows), limit-le r q checked)),
      rw (is_page, page_of-fetched)
          (All-take (Fits q) q.limit (drop q.offset rows)
            (All-drop (Fits q) q.offset rows (matching-Fits q db.tables))),
      rw (is_page, page_of-fetched)
          (InOrder-take q.limit (drop q.offset rows)
            (InOrder-drop q.offset rows (matching-InOrder q db.tables keyed))),
    )

-- The query of the page that begins where the page of `q` ends.
abbrev pub next_page : ListQuery → ListQuery
next_page q = record q { offset = q.offset + q.limit }

-- The rows of `n` pages, one behind the other, while the table stays.
abbrev pub walk : ℕ → ListQuery → Tables → List Job
walk zero q t = []
walk (suc n) q t = (page_of q (fetched q t)).items ++ walk n (next_page q) t

matching-next_page : (q : ListQuery) (t : Tables) → matching (next_page q) t ≡ matching q t
unfolding matching
matching-next_page q t = refl

walk-take :
    (n : ℕ) (q : ListQuery) (t : Tables)
    → walk n q t ≡ take (n * q.limit) (drop q.offset (matching q t))
walk-take zero q t =
    let none_left : 0 ≡ zero * q.limit = omega arith in
    ap (λ (k : ℕ). take k (drop q.offset (matching q t))) none_left
walk-take (suc n) q t =
    let rows = matching q t in
    rw
      (
        page_of-fetched q t,
        walk-take n (next_page q) t,
        matching-next_page q t,
        ← drop-drop q.offset q.limit rows,
        take-append-take-drop q.limit (n * q.limit) (drop q.offset rows),
      )
      (ap (λ (k : ℕ). take k (drop q.offset rows)) (omega arith))

take-length : (n : ℕ) (jobs : List Job) → length jobs ≤ n → take n jobs ≡ jobs
take-length zero [] h = refl
take-length zero (job ∷ jobs) h = absurd (omega arith)
take-length (suc n) [] h = refl
take-length (suc n) (job ∷ jobs) h = rw (take-length n jobs (omega arith))

-- From its first page on, with enough pages for the rows of a table with unique keys that stays as
-- it is, the list shows every job of the table that fits the user, the id, the status and the
-- pipeline type of the query, only such, and none of them twice: each row was created later than
-- all that follow it, on its page or on later ones, or at the same time and has the greater key.
pub pages_cover :
    (n : ℕ) (q : ListQuery) (t : Tables)
    → Keyed t.next_id t.jobs
    → q.offset ≡ 0
    → length t.jobs ≤ n * q.limit
    → ((job : Job) → Among job t.jobs → Fits q job → Among job (walk n q t))
      × All (Fits q) (walk n q t)
      × InOrder (walk n q t)
pages_cover n q t keyed first enough =
    let whole : walk n q t ≡ matching q t =
      walk-take n q t
      ∙ (ap (λ (k : ℕ). take (n * q.limit) (drop k (matching q t))) first
          ∙ take-length (n * q.limit) (matching q t) (omega (arith, length-matching q t))) in
    rw whole (matching-Among q t, matching-Fits q t, matching-InOrder q t keyed)
