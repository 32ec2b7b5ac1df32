-- ===== src/Jobs/Store/Progress.antt =====
-- While the database answers, a transition of a job that may move returns, and one that may not
-- raises `JobStoreError`.
use kyrgstudio.Base.{ℕ, String, ◌≡◌, none, some, List, [], true, arith, ==_refl, subst, ◌∙◌}
use kyrgstudio.Base.Text.{is_one_of}
use kyrgstudio.Database.{Result, ok, err, query, transaction}
use kyrgstudio.Jobs.{Job}
use kyrgstudio.Jobs.Store.{JobDb, transition_job, invalid_transition}
use kyrgstudio.Jobs.Store.Transitions.{
  Keyed, job_at, allowed_row, stamped, find-allows, row_found, rows_after, Transitioned,
  eq_of_result, transition_job-Transitioned,
}

-- A call that returned the row it left at this key, the database still answering.
pub record MovesTo (i : ℕ) (job : Job) (r : Result Job × JobDb) : Type 0 where
  pub returned : r.0 ≡ ok job
  pub calm : r.1.outages ≡ []
  pub row : job_at r.1 i ≡ some job
  pub keys : Keyed r.1.tables.next_id r.1.tables.jobs

module _ (i : ℕ) (operation : String) (allowed : List String) (set : ℕ → Job → Job)
    (same_id : (now : ℕ) (job : Job) → (set now job).id ≡ job.id) (db : JobDb)
    (keyed : Keyed db.tables.next_id db.tables.jobs) (calm : db.outages ≡ []) where
  transition_job-returns :
      (job : Job)
      → job_at db i ≡ some job
      → is_one_of job.status allowed ≡ true
      → ((transaction (transition_job i operation allowed set) db).0 ≡ ok (stamped set db.now job))
        × ((transaction (transition_job i operation allowed set) db).1.outages ≡ [])
  unfolding transition_job transaction query
  transition_job-returns job here may = ground (
    arith,
    find-allows i db.tables.next_id allowed db.tables.jobs keyed,
    row_found i allowed set same_id db job here,
    rows_after i allowed set same_id db job here may job.id,
  )

  pub transition_job-moves :
      (job : Job)
      → job_at db i ≡ some job
      → is_one_of job.status allowed ≡ true
      → MovesTo i (stamped set db.now job) (transaction (transition_job i operation allowed set) db)
  transition_job-moves job here may =
      let returns = transition_job-returns job here may in
      let result = transaction (transition_job i operation allowed set) db in
      let facts =
        subst (Transitioned db i allowed set)
          (eq_of_result result (stamped set db.now job) returns.0)
          (transition_job-Transitioned i allowed set same_id operation db keyed) in
      record {
        returned = returns.0;
        calm = returns.1;
        row = facts.4 i ∙ rw (==_refl i);
        keys = facts.5;
      }

  pub transition_job-refuses :
      allowed_row allowed (job_at db i) ≡ none
      → transaction (transition_job i operation allowed set) db
        ≡ (err (invalid_transition operation i allowed), db)
  unfolding transition_job transaction query
  transition_job-refuses refused =
      ground (arith, find-allows i db.tables.next_id allowed db.tables.jobs keyed)
