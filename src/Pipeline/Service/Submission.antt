-- ===== src/Pipeline/Service/Submission.antt =====
-- src/app/pipeline/service.py: `_start` of a new job, whatever the storage and the queue do.
use kyrgstudio.Base.{
  ℕ, ◌+◌, String, ◌≡◌, refl, ◌∙◌, ◌⊎◌, inl, inr, some, [], ◌∷◌, ◌++◌, true, false, arith, ==_refl,
}
use kyrgstudio.Base.Int.{ℤ, eq_ℤ}
use kyrgstudio.Base.Lists.{find, any, find-append}
use kyrgstudio.Base.Text.{is_one_of, strip}
use kyrgstudio.Errors.{Error}
use kyrgstudio.Database.{Result, ok, err, Exec, lift, pure, ◌>>=◌, then_in, Result-cases}
use kyrgstudio.Jobs.{Job, pending, uploaded, failed_status}
use kyrgstudio.Jobs.Fields.{optional_str}
use kyrgstudio.Jobs.Marks.{fail_values, upload_values}
use kyrgstudio.Jobs.Adapters
use kyrgstudio.Jobs.Progress.{open_statuses, mark_uploaded-cases}
use kyrgstudio.Jobs.Store.{JobDb, has_id, new_job, run_id_taken}
use kyrgstudio.Jobs.Store.Creation.{find-above, Keyed-append}
use kyrgstudio.Jobs.Store.Replay.{create_job_new}
use kyrgstudio.Jobs.Store.Transitions.{Keyed, job_at, stamped}
use kyrgstudio.Pipeline.Input.{PipelineInput, get_pipeline_type, normalize_pipeline_input}
use kyrgstudio.Pipeline.Payloads.{
  StoredFile, build_uploaded_job_payload, build_failed_job_payload, build_input_json,
  normalize_user_id, create_pipeline_job, payload_of,
}
use kyrgstudio.Pipeline.Service.{
  Backends, PipelineStartResult, upload_and_enqueue, or_fail, job_required_str, started, start,
}
use kyrgstudio.Pipeline.Service.Failure.{mark_failed_safely-ok, mark_failed_safely-fails}
use kyrgstudio.Pipeline.Service.Replay.{payload-Accepts}
use kyrgstudio.World.{World}

-- The storage took the file under this key, and then the queue took the job.
abbrev pub Queued :
    {X : Type 0} → Backends X → (ℕ → Exec X StoredFile) → ℕ → X → String → World X → Type 0
Queued backends save i x key w =
    ((file : StoredFile) × ((save i x).0 ≡ ok file) × (file.key ≡ key))
    × ((backends.enqueue i (save i x).1).0 ≡ ok tt)
    × (w.outside ≡ (backends.enqueue i (save i x).1).1)

-- Where a submission leaves its job: uploaded, under the key that it reports and that the storage gave
-- its file, and put in the queue once; or failed.
abbrev pub Submitted :
    {X : Type 0}
    → Backends X
    → (ℕ → Exec X StoredFile)
    → ℕ
    → X
    → Result PipelineStartResult × World X
    → Type 0
Submitted backends save i x (ok result, w) =
    (result.job_id ≡ i)
    × ((row : Job) × (job_at w.db i ≡ some row)
        × (row.status ≡ uploaded)
        × (result.run_id ≡ optional_str row.run_id))
    × Queued backends save i x result.input_file_key w
Submitted backends save i x (err e, w) =
    (row : Job) × (job_at w.db i ≡ some row) × (row.status ≡ failed_status)

-- A database in which job `i` is in this status.
abbrev In : String → JobDb → ℕ → Job → Type 0
In status db i job =
    Keyed db.tables.next_id db.tables.jobs
    × (db.outages ≡ [])
    × (job_at db i ≡ some job)
    × (job.status ≡ status)

abbrev Unended : JobDb → ℕ → Job → Type 0
Unended db i job =
    Keyed db.tables.next_id db.tables.jobs
    × (db.outages ≡ [])
    × (job_at db i ≡ some job)
    × (is_one_of job.status open_statuses ≡ true)

uploaded_text :
    (row : Job) → row.status ≡ uploaded → job_required_str (some row.status) ≡ ok uploaded
unfolding job_required_str strip
uploaded_text row is_uploaded = rw is_uploaded refl

module _ {X : Type 0} (backends : Backends X) (save : ℕ → Exec X StoredFile) (i : ℕ) where
  -- The body of the `try` statement returns the uploaded row, or raises and leaves a job to fail.
  upload_and_enqueue-cases :
      (w : World X) (job : Job)
      → In pending w.db i job
      → ((file : StoredFile) × (row : Job) × (after : World X) × (upload_and_enqueue backends save i
              w
            ≡ (ok (file, row), after))
          × In uploaded after.db i row
          × Queued backends save i w.outside file.key after)
        ⊎ ((e : Error) × (after : World X) × (row : Job) × (upload_and_enqueue backends save i w
              ≡ (err e, after))
            × Unended after.db i row)
  unfolding upload_and_enqueue
  upload_and_enqueue-cases w job (keyed, calm, here, is_pending) =
      elim (Result-cases (save i w.outside).0) [
        | inl (file, saved) ↦
            elim (mark_uploaded-cases i w.db keyed calm (build_uploaded_job_payload file) job here
              is_pending) [
                | inl (backend, key, uri, moves) ↦
                    let x = (save i w.outside).1 in
                    let row = stamped (upload_values backend key uri) w.db.now job in
                    let uploaded_db =
                      (Adapters.mark_uploaded i (build_uploaded_job_payload file) w.db).1 in
                    elim (Result-cases (backends.enqueue i x).0) [
                      | inl (done, queued) ↦ inl (
                        file,
                        row,
                        record { db = uploaded_db; outside = (backends.enqueue i x).1 },
                        rw (saved, moves.returned, queued),
                        (moves.keys, moves.calm, moves.row, refl),
                        ((file, saved, refl), queued, refl),
                      )
                      | inr (e, lost) ↦ inr (
                        e,
                        record { db = uploaded_db; outside = (backends.enqueue i x).1 },
                        row,
                        rw (saved, moves.returned, lost),
                        (moves.keys, moves.calm, moves.row, refl),
                      )
                    ]
                | inr (e, raised) ↦ inr (
                  e,
                  record w { outside = (save i w.outside).1 },
                  job,
                  rw (saved, raised),
                  (keyed, calm, here, rw is_pending refl),
                )
              ]
        | inr (e, raised) ↦ inr (
          e,
          record w { outside = (save i w.outside).1 },
          job,
          rw raised,
          (keyed, calm, here, rw is_pending refl),
        )
      ]

  -- The rest of `_start` once its job is pending.
  submit-Submitted :
      (w : World X) (job : Job) (pipeline_type : String)
      → In pending w.db i job
      → Submitted backends save i w.outside (
          then_in
            (λ found. lift (job_required_str (some found.1.status)) >>= λ status.
              pure (started backends i pipeline_type found status))
            (or_fail i (upload_and_enqueue backends save i) w))
  submit-Submitted w job pipeline_type now = elim (upload_and_enqueue-cases w job now) [
    | inl (file, row, after, submitted, (keyed, calm, here, is_uploaded), in_queue) ↦
        rw (submitted, uploaded_text row is_uploaded)
          (refl, (row, here, is_uploaded, refl), in_queue)
    | inr (e, after, row, raised, (keyed, calm, here, may)) ↦
        rw (raised, mark_failed_safely-ok i e after)
          (
            stamped (fail_values (build_failed_job_payload e)) after.db.now row,
            mark_failed_safely-fails after i row keyed calm here may e after.outside,
            refl,
          )
  ]

-- The row that a creation appends is found, and keys stay keys.
created-In :
    (db : JobDb) (job : Job)
    → Keyed db.tables.next_id db.tables.jobs
    → db.outages ≡ []
    → job.id ≡ db.tables.next_id
    → job.status ≡ pending
    → In pending
        (record db {
          tables = record db.tables {
            jobs = db.tables.jobs ++ job ∷ [];
            next_id = db.tables.next_id + 1;
          };
        })
        db.tables.next_id
        job
unfolding find
created-In db job keyed calm is_id is_pending = (
  Keyed-append db.tables.next_id db.tables.jobs job keyed is_id,
  calm,
  find-append (has_id db.tables.next_id) db.tables.jobs (job ∷ [])
      ∙ rw (
        find-above db.tables.next_id db.tables.next_id db.tables.jobs keyed (omega arith),
        is_id,
        ==_refl db.tables.next_id,
      ),
  is_pending,
)

-- A start of a known user with a valid input and an idempotency key that is new or absent, at a
-- table with unique keys, the database answering: it returns, the storage has taken the file under
-- the key in the result, the new job is uploaded, and the queue has taken it once; or it raises
-- and the new job has failed, whatever the storage and the queue do.
pub start_new :
    {X : Type 0} (backends : Backends X) (save : ℕ → Exec X StoredFile) (w : World X)
    (user_id owner : ℤ) (input normalized : PipelineInput)
    → Keyed w.db.tables.next_id w.db.tables.jobs
    → w.db.outages ≡ []
    → normalize_pipeline_input input ≡ ok normalized
    → normalize_user_id user_id (get_pipeline_type normalized) ≡ ok owner
    → any (eq_ℤ owner) w.db.tables.users ≡ true
    → run_id_taken (optional_str normalized.run_id) w.db.tables.jobs ≡ false
    → Submitted backends save w.db.tables.next_id w.outside (start backends user_id input save w)
unfolding start create_pipeline_job
start_new backends save w user_id owner input normalized keyed calm is_normal is_owner known fresh =
    let fields = build_input_json normalized in
    let job =
      new_job w.db.tables.next_id w.db.now owner (optional_str normalized.run_id)
        (get_pipeline_type normalized) fields in
    let creation =
      create_job_new (payload_of normalized fields owner) owner (get_pipeline_type normalized)
        fields (payload-Accepts normalized fields owner) w.db calm known fresh in
    rw (is_normal, is_owner, creation)
      (submit-Submitted backends save w.db.tables.next_id
        (record w {
          db = record w.db {
            tables = record w.db.tables {
              jobs = w.db.tables.jobs ++ job ∷ [];
              next_id = w.db.tables.next_id + 1;
            };
          };
        })
        job (get_pipeline_type normalized) (created-In w.db job keyed calm refl refl))
