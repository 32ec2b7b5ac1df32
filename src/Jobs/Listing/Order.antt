-- ===== src/Jobs/Listing/Order.antt =====
-- The rows of the list: those that fit the request, each once, newest first.
use kyrgstudio.Base.{
  ℕ, suc, ◌<◌, ◌≤◌, ap, String, ◌≡◌, ◌≢◌, refl, ◌∙◌, ◌⊎◌, inl, inr, Option, none, some, List, [],
  ◌∷◌, Bool, true, false, arith, Bool-cases, ==_iff, str_eq_iff, ◌&&◌, ◌==◌,
}
use kyrgstudio.Base.Int.{pos, eq_ℤ, eq_ℤ_iff}
use kyrgstudio.Base.Lists.{All, Among, find, select, length}
use kyrgstudio.Jobs.{Job, Tables}
use kyrgstudio.Jobs.Store.{has_id}
use kyrgstudio.Jobs.Store.Transitions.{Keyed}
use kyrgstudio.Jobs.Listing.{
  ListQuery, id_fits, text_fits, selects, newer, insert_by_age, newest_first, matching,
}

-- The job is one that the list was asked for.
pub record Fits (q : ListQuery) (job : Job) : Type 0 where
  pub user : job.user_id ≡ pos q.user_id
  pub job_id : (i : ℕ) → q.job_id ≡ some i → job.id ≡ i
  pub status : (s : String) → q.status ≡ some s → job.status ≡ s
  pub pipeline_type : (s : String) → q.pipeline_type ≡ some s → job.pipeline_type ≡ s

-- `a` was created later than `b`, or at the same time and has the greater key.
abbrev pub Before : Job → Job → Type 0
Before a b = (b.created_at < a.created_at) ⊎ ((a.created_at ≡ b.created_at) × (b.id < a.id))

-- Every row stands before all that follow it, so that no row is there twice.
abbrev pub InOrder : List Job → Type 0
InOrder [] = Unit
InOrder (job ∷ jobs) = All (Before job) jobs × InOrder jobs

&&-true : (a b : Bool) → (a && b) ≡ true → (a ≡ true) × (b ≡ true)
&&-true true b h = (refl, h)
&&-true false b h = cc

id_fits-holds : (o : Option ℕ) (job : Job) (i : ℕ) → id_fits o job ≡ true → o ≡ some i → job.id ≡ i
id_fits-holds none job i h e = cc
id_fits-holds (some k) job i h e = ground (arith, ==_iff job.id k)

text_fits-holds : (o : Option String) (t s : String) → text_fits o t ≡ true → o ≡ some s → t ≡ s
text_fits-holds none t s h e = cc
text_fits-holds (some k) t s h e = ground (arith, str_eq_iff t k)

id_fits-of : (o : Option ℕ) (job : Job) → ((i : ℕ) → o ≡ some i → job.id ≡ i) → id_fits o job ≡ true
id_fits-of none job h = refl
id_fits-of (some i) job h = (==_iff job.id i).1 (h i refl)

text_fits-of :
    (o : Option String) (t : String) → ((s : String) → o ≡ some s → t ≡ s) → text_fits o t ≡ true
text_fits-of none t h = refl
text_fits-of (some s) t h = (str_eq_iff t s).1 (h s refl)

selects-Fits : (q : ListQuery) (job : Job) → selects q job ≡ true → Fits q job
selects-Fits q job h =
    let (user, rest) = &&-true (eq_ℤ job.user_id (pos q.user_id)) _ h in
    let (id, rest') = &&-true (id_fits q.job_id job) _ rest in
    let (status, kind) = &&-true (text_fits q.status job.status) _ rest' in
    record {
      user = (eq_ℤ_iff job.user_id (pos q.user_id)).0 user;
      job_id = λ i. id_fits-holds q.job_id job i id;
      status = λ s. text_fits-holds q.status job.status s status;
      pipeline_type = λ s. text_fits-holds q.pipeline_type job.pipeline_type s kind;
    }

Fits-selects : (q : ListQuery) (job : Job) → Fits q job → selects q job ≡ true
Fits-selects q job fits =
    rw
      (
        (eq_ℤ_iff job.user_id (pos q.user_id)).1 fits.user,
        id_fits-of q.job_id job fits.job_id,
        text_fits-of q.status job.status fits.status,
        text_fits-of q.pipeline_type job.pipeline_type fits.pipeline_type,
      )
      refl

Before-trans : (a b c : Job) → Before a b → Before b c → Before a c
Before-trans a b c h k = ground arith

newer-Before : (a b : Job) → newer a b ≡ true → b.id ≢ a.id → Before a b
newer-Before a b h apart = ground arith

older-Before : (a b : Job) → newer a b ≡ false → Before b a
older-Before a b h = ground arith

pub All-map :
    {P Q : Job → Type 0} (f : (job : Job) → P job → Q job) (jobs : List Job)
    → All P jobs
    → All Q jobs
All-map f [] h = tt
All-map f (job ∷ jobs) h = (f job h.0, All-map f jobs h.1)

All-insert_by_age :
    (P : Job → Type 0) (job : Job) (rows : List Job)
    → P job
    → All P rows
    → All P (insert_by_age job rows)
unfolding insert_by_age
All-insert_by_age P job [] p h = (p, tt)
All-insert_by_age P job (row ∷ rows) p h = elim (Bool-cases (newer job row)) [
  | inl before ↦ rw before (p, h)
  | inr after ↦ rw after (h.0, All-insert_by_age P job rows p h.1)
]

All-newest_first : (P : Job → Type 0) (jobs : List Job) → All P jobs → All P (newest_first jobs)
unfolding newest_first
All-newest_first P [] h = tt
All-newest_first P (job ∷ jobs) h =
    All-insert_by_age P job (newest_first jobs) h.0 (All-newest_first P jobs h.1)

insert_by_age-InOrder :
    (job : Job) (rows : List Job)
    → All (λ row. row.id ≢ job.id) rows
    → InOrder rows
    → InOrder (insert_by_age job rows)
unfolding insert_by_age
insert_by_age-InOrder job [] apart h = (tt, tt)
insert_by_age-InOrder job (row ∷ rows) apart h = elim (Bool-cases (newer job row)) [
  | inl before ↦
      let first = newer-Before job row before apart.0 in
      rw before ((first, All-map (λ x later. Before-trans job row x first later) rows h.0), h)
  | inr after ↦ rw after (
    All-insert_by_age (Before row) job rows (older-Before job row after) h.0,
    insert_by_age-InOrder job rows apart.1 h.1,
  )
]

-- The keys of the rows differ.
abbrev Apart : List Job → Type 0
Apart [] = Unit
Apart (job ∷ jobs) = All (λ row. row.id ≢ job.id) jobs × Apart jobs

newest_first-InOrder : (jobs : List Job) → Apart jobs → InOrder (newest_first jobs)
unfolding newest_first
newest_first-InOrder [] apart = tt
newest_first-InOrder (job ∷ jobs) apart =
    insert_by_age-InOrder job (newest_first jobs)
      (All-newest_first (λ row. row.id ≢ job.id) jobs apart.0) (newest_first-InOrder jobs apart.1)

find-none-All :
    (i : ℕ) (jobs : List Job) → find (has_id i) jobs ≡ none → All (λ row. row.id ≢ i) jobs
unfolding find
find-none-All i [] h = tt
find-none-All i (job ∷ jobs) h = elim (Bool-cases (job.id == i)) [
  | inl same ↦ absurd (ground (arith, h, same))
  | inr other ↦
      (ground (arith, ==_iff job.id i, other), find-none-All i jobs (ground (arith, h, other)))
]

All-select_of :
    (P : Job → Type 0) (p : Job → Bool) (jobs : List Job) → All P jobs → All P (select p jobs)
unfolding select
All-select_of P p [] h = tt
All-select_of P p (job ∷ jobs) h = elim (Bool-cases (p job)) [
  | inl fits ↦ rw fits (h.0, All-select_of P p jobs h.1)
  | inr other ↦ rw other (All-select_of P p jobs h.1)
]

select-Apart :
    (p : Job → Bool) (next : ℕ) (jobs : List Job) → Keyed next jobs → Apart (select p jobs)
unfolding select
select-Apart p next [] keyed = tt
select-Apart p next (job ∷ jobs) keyed = elim (Bool-cases (p job)) [
  | inl fits ↦ rw fits (
    All-select_of (λ row. row.id ≢ job.id) p jobs (find-none-All job.id jobs keyed.1),
    select-Apart p next jobs keyed.2,
  )
  | inr other ↦ rw other (select-Apart p next jobs keyed.2)
]

select-holds : (p : Job → Bool) (jobs : List Job) → All (λ job. p job ≡ true) (select p jobs)
unfolding select
select-holds p [] = tt
select-holds p (job ∷ jobs) = elim (Bool-cases (p job)) [
  | inl fits ↦ rw fits (fits, select-holds p jobs)
  | inr other ↦ rw other (select-holds p jobs)
]

insert_by_age-Among :
    (job x : Job) (rows : List Job) → (x ≡ job) ⊎ Among x rows → Among x (insert_by_age job rows)
unfolding insert_by_age
insert_by_age-Among job x [] h = h
insert_by_age-Among job x (row ∷ rows) h = elim (Bool-cases (newer job row)) [
  | inl before ↦ rw before h
  | inr after ↦ rw after (elim h [
    | inl e ↦ inr (insert_by_age-Among job x rows (inl e))
    | inr (inl e) ↦ inl e
    | inr (inr m) ↦ inr (insert_by_age-Among job x rows (inr m))
  ])
]

newest_first-Among : (x : Job) (jobs : List Job) → Among x jobs → Among x (newest_first jobs)
unfolding newest_first
newest_first-Among x [] h = h
newest_first-Among x (job ∷ jobs) (inl e) = insert_by_age-Among job x (newest_first jobs) (inl e)
newest_first-Among x (job ∷ jobs) (inr m) =
    insert_by_age-Among job x (newest_first jobs) (inr (newest_first-Among x jobs m))

select-Among :
    (p : Job → Bool) (x : Job) (jobs : List Job)
    → p x ≡ true
    → Among x jobs
    → Among x (select p jobs)
unfolding select
select-Among p x [] fits h = h
select-Among p x (job ∷ jobs) fits (inl e) = rw (← e, fits) (inl refl)
select-Among p x (job ∷ jobs) fits (inr m) = elim (Bool-cases (p job)) [
  | inl also ↦ rw also (inr (select-Among p x jobs fits m))
  | inr other ↦ rw other (select-Among p x jobs fits m)
]

pub matching-Fits : (q : ListQuery) (t : Tables) → All (Fits q) (matching q t)
unfolding matching
matching-Fits q t =
    All-newest_first (Fits q) (select (selects q) t.jobs)
      (All-map (selects-Fits q) (select (selects q) t.jobs) (select-holds (selects q) t.jobs))

pub matching-InOrder :
    (q : ListQuery) (t : Tables) → Keyed t.next_id t.jobs → InOrder (matching q t)
unfolding matching
matching-InOrder q t keyed =
    newest_first-InOrder (select (selects q) t.jobs)
      (select-Apart (selects q) t.next_id t.jobs keyed)

pub matching-Among :
    (q : ListQuery) (t : Tables) (job : Job)
    → Among job t.jobs
    → Fits q job
    → Among job (matching q t)
unfolding matching
matching-Among q t job here fits =
    newest_first-Among job (select (selects q) t.jobs)
      (select-Among (selects q) job t.jobs (Fits-selects q job fits) here)

length-insert_by_age :
    (job : Job) (rows : List Job) → length (insert_by_age job rows) ≡ suc (length rows)
unfolding insert_by_age
length-insert_by_age job [] = refl
length-insert_by_age job (row ∷ rows) = ground (arith, length-insert_by_age job rows)

length-newest_first : (jobs : List Job) → length (newest_first jobs) ≡ length jobs
unfolding newest_first
length-newest_first [] = refl
length-newest_first (job ∷ jobs) =
    length-insert_by_age job (newest_first jobs) ∙ ap suc (length-newest_first jobs)

length-select : (p : Job → Bool) (jobs : List Job) → length (select p jobs) ≤ length jobs
unfolding select
length-select p [] = omega arith
length-select p (job ∷ jobs) = ground (arith, length-select p jobs)

pub length-matching : (q : ListQuery) (t : Tables) → length (matching q t) ≤ length t.jobs
unfolding matching
length-matching q t =
    omega (arith, length-newest_first (select (selects q) t.jobs), length-select (selects q) t.jobs)
