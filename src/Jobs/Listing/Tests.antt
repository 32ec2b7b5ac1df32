-- ===== src/Jobs/Listing/Tests.antt =====
-- The list of a user's jobs at a table of three.
use kyrgstudio.Base.{◌≡◌, ◌≤◌, refl, none, [], ◌∷◌, ap, arith}
use kyrgstudio.Base.Int.{pos}
use kyrgstudio.Base.Json.{end}
use kyrgstudio.Base.Lists.{length, All, Among, find}
use kyrgstudio.Database.{ok}
use kyrgstudio.Jobs.{Job}
use kyrgstudio.Jobs.Fields.{
  Scalar, normalize_limit, normalize_offset, normalize_positive_integer,
  normalize_optional_positive_integer, normalize_optional_choice,
}
use kyrgstudio.Jobs.Store.{JobDb, new_job}
use kyrgstudio.Jobs.Store.Transitions.{Keyed}
use kyrgstudio.Jobs.Listing.{ListRequest, ListQuery, normalize_request, list_user_jobs}
use kyrgstudio.Jobs.Listing.Order.{Fits, InOrder}
use kyrgstudio.Jobs.Listing.Pages.{page, walk, list_user_jobs-page, page_holds, pages_cover}

abbrev three_jobs : JobDb
three_jobs = record {
  tables = record {
    jobs =
        new_job 1 5 (pos 7) none "copy_analysis" end
        ∷ new_job 2 6 (pos 8) none "copy_analysis" end
        ∷ new_job 3 6 (pos 7) none "copy_analysis" end
        ∷ [];
    events = [];
    next_id = 4;
    users = pos 7 ∷ pos 8 ∷ [];
  };
  now = 9;
  outages = [];
}

abbrev request : ListRequest
request = record {
  user_id = Scalar.int (pos 7);
  job_id = Scalar.absent;
  status = none;
  pipeline_type = none;
  limit = Scalar.int (pos 500);
  offset = Scalar.int (pos 0);
}

abbrev query : ListQuery
query = record {
  user_id = 7;
  job_id = none;
  status = none;
  pipeline_type = none;
  limit = 100;
  offset = 0;
}

request_passes : normalize_request request ≡ ok query
unfolding normalize_request normalize_limit normalize_offset normalize_positive_integer
    normalize_optional_positive_integer normalize_optional_choice
request_passes = refl

list_user_jobs-page_example :
    list_user_jobs request three_jobs ≡ (ok (page query three_jobs.tables), three_jobs)
list_user_jobs-page_example = list_user_jobs-page request query three_jobs request_passes refl

three_jobs-Keyed : Keyed 4 three_jobs.tables.jobs
unfolding find
three_jobs-Keyed = (omega arith, refl, (omega arith, refl, (omega arith, refl, tt)))

page_holds_example :
    (q : ListQuery) × (normalize_request request ≡ ok q)
    × (request.user_id ≡ Scalar.int (pos q.user_id))
    × (length (page query three_jobs.tables).items ≤ 100)
    × All (Fits q) (page query three_jobs.tables).items
    × InOrder (page query three_jobs.tables).items
page_holds_example =
    page_holds request three_jobs (page query three_jobs.tables) three_jobs-Keyed
      (ap (λ r. r.0) list_user_jobs-page_example)

abbrev by_ones : ListQuery
by_ones = record query { limit = 1 }

pages_cover_example :
    ((job : Job)
      → Among job three_jobs.tables.jobs
      → Fits by_ones job
      → Among job (walk 3 by_ones three_jobs.tables))
    × All (Fits by_ones) (walk 3 by_ones three_jobs.tables)
    × InOrder (walk 3 by_ones three_jobs.tables)
pages_cover_example = pages_cover 3 by_ones three_jobs.tables three_jobs-Keyed refl (omega arith)
