-- ===== src/Jobs/Listing.antt =====
-- src/app/store/jobs.py: `list_user_jobs`, and `JobListPage` of src/app/store/base.py.
pub mod Order
pub mod Pages
mod Tests
use kyrgstudio.Base.{
  ℕ, ◌+◌, String, Option, none, some, List, [], ◌∷◌, Bool, true, ltb, leb, ◌==◌, ◌&&◌, ◌||◌, str_eq,
  if◌then◌else◌,
}
use kyrgstudio.Base.Int.{ℤ, pos, eq_ℤ}
use kyrgstudio.Base.Json
use kyrgstudio.Base.Json.{Json, field, end, text_or_null, null}
use kyrgstudio.Base.Lists.{length, take, drop, select}
use kyrgstudio.Database.{
  Result, ok, err, Exec, lift, bind_result, ◌>>=◌, Outcome, done, integrity, failed, query,
}
use kyrgstudio.Jobs.{Job, Tables, supported_statuses, supported_pipeline_types}
use kyrgstudio.Jobs.Fields.{
  Scalar, store_failure, normalize_limit, normalize_offset, normalize_positive_integer,
  normalize_optional_positive_integer, normalize_optional_choice,
}
use kyrgstudio.Jobs.Store.{JobDb}

pub record JobListPage : Type 0 where
  pub items : List Job
  pub has_more : Bool

-- The arguments of `list_user_jobs`; `absent` and `none` stand for `None`.
pub record ListRequest : Type 0 where
  pub user_id : Scalar
  pub job_id : Scalar
  pub status : Option String
  pub pipeline_type : Option String
  pub limit : Scalar
  pub offset : Scalar

-- The arguments as the checks leave them.
pub record ListQuery : Type 0 where
  pub user_id : ℕ
  pub job_id : Option ℕ
  pub status : Option String
  pub pipeline_type : Option String
  pub limit : ℕ
  pub offset : ℕ

abbrev pub id_fits : Option ℕ → Job → Bool
id_fits none job = true
id_fits (some i) job = job.id == i

abbrev pub text_fits : Option String → String → Bool
text_fits none s = true
text_fits (some t) s = str_eq s t

-- `WHERE` of the list's filters
abbrev pub selects : ListQuery → Job → Bool
selects q job =
    eq_ℤ job.user_id (pos q.user_id)
    && (id_fits q.job_id job
        && (text_fits q.status job.status && text_fits q.pipeline_type job.pipeline_type))

-- `a` stands before `b` under `ORDER BY created_at DESC, id DESC`.
abbrev pub newer : Job → Job → Bool
newer a b = ltb b.created_at a.created_at || (a.created_at == b.created_at && leb b.id a.id)

unfoldable pub insert_by_age : Job → List Job → List Job
insert_by_age job [] = job ∷ []
insert_by_age job (row ∷ rows) =
    if newer job row then job ∷ row ∷ rows else row ∷ insert_by_age job rows

unfoldable pub newest_first : List Job → List Job
unfolding insert_by_age
newest_first [] = []
newest_first (job ∷ jobs) = insert_by_age job (newest_first jobs)

-- All rows that the filters select, in the order of the list.
unfoldable pub matching : ListQuery → Tables → List Job
unfolding newest_first select
matching q t = newest_first (select (selects q) t.jobs)

-- The rows of the `SELECT`, one more than the page holds.
unfoldable pub fetched : ListQuery → Tables → List Job
unfolding matching
fetched q t = take (q.limit + 1) (drop q.offset (matching q t))

unfoldable pub page_of : ListQuery → List Job → JobListPage
page_of q rows = record { items = take q.limit rows; has_more = ltb q.limit (length rows) }

abbrev number_or_null : Option ℕ → Json
number_or_null none = null
number_or_null (some n) = Json.int (pos n)

abbrev list_details : ListQuery → Json.Fields
list_details q = field "user_id" (Json.int (pos q.user_id)) (
    field "job_id" (number_or_null q.job_id) (
      field "status" (text_or_null q.status) (
        field "pipeline_type" (text_or_null q.pipeline_type)
          (field "limit" (Json.int (pos q.limit)) (field "offset" (Json.int (pos q.offset)) end)))))

abbrev listed : ListQuery → Outcome (List Job) → Result JobListPage
listed q (done rows) = ok (page_of q rows)
listed q (integrity name) =
    err (store_failure "list_user_jobs" "Failed to list user jobs." (list_details q) name)
listed q (failed name) =
    err (store_failure "list_user_jobs" "Failed to list user jobs." (list_details q) name)

unfoldable pub run_query : ListQuery → Exec JobDb JobListPage
unfolding fetched page_of query store_failure
run_query q db = let (o, after) = query (fetched q) db in (listed q o, after)

-- The checks of `list_user_jobs`, in their order.
unfoldable pub normalize_request : ListRequest → Result ListQuery
normalize_request r =
    bind_result (normalize_positive_integer r.user_id "user_id" "list_user_jobs") λ user_id.
      bind_result (normalize_optional_positive_integer r.job_id "job_id" "list_user_jobs") λ job_id.
        bind_result
          (normalize_optional_choice r.status "status" supported_statuses "list_user_jobs")
          λ status.
            bind_result
              (normalize_optional_choice r.pipeline_type "pipeline_type" supported_pipeline_types
                "list_user_jobs")
              λ pipeline_type. bind_result (normalize_limit r.limit "list_user_jobs") λ limit.
                bind_result (normalize_offset r.offset "list_user_jobs") λ offset. ok (record {
                  user_id = user_id;
                  job_id = job_id;
                  status = status;
                  pipeline_type = pipeline_type;
                  limit = limit;
                  offset = offset;
                })

-- `list_user_jobs`
unfoldable pub list_user_jobs : ListRequest → Exec JobDb JobListPage
unfolding run_query normalize_request
list_user_jobs r = do q ← lift (normalize_request r); run_query q
