-- ===== src/Pipeline/Confirm/Pending.antt =====
-- src/app/pipeline/service.py: the confirmation of a pending job, branch by branch.
use kyrgstudio.Base.{
  ℕ, String, ◌≡◌, refl, sym, subst, ap, ◌⊎◌, inl, inr, Option, none, some, [], true, false, arith,
  str_eq, str_eq_iff, ==_iff, Bool-cases,
}
use kyrgstudio.Base.Int.{ℤ, eq_ℤ}
use kyrgstudio.Base.Text.{strip}
use kyrgstudio.Errors.{is_instance, ErrorClass}
use kyrgstudio.Database.{Result, ok, err, Exec, Result-cases}
use kyrgstudio.Jobs.{Job, pending, uploaded, failed_status}
use kyrgstudio.Jobs.Adapters
use kyrgstudio.Jobs.Marks.{fail_values, upload_values}
use kyrgstudio.Jobs.Progress.{mark_uploaded-cases}
use kyrgstudio.Jobs.Store.{same_option}
use kyrgstudio.Jobs.Store.Reads.{get_job-calm}
use kyrgstudio.Jobs.Store.Transitions.{Keyed, job_at, stamped}
use kyrgstudio.Storage.Paths.{job_input_key}
use kyrgstudio.World.{World}
use kyrgstudio.Pipeline.Payloads.{StoredFile, build_uploaded_job_payload, build_failed_job_payload}
use kyrgstudio.Pipeline.Service.{Backends, ObjectMetadata, PipelineStartResult, job_required_str}
use kyrgstudio.Pipeline.Service.Failure.{mark_failed_safely-ok, mark_failed_safely-fails}
use kyrgstudio.Pipeline.Confirm.{
  UploadMetadata, direct_upload_metadata, check_object, pipeline_start_result, mark_and_enqueue,
  confirm, confirm_presigned_upload,
}

-- Where a confirmation leaves the pending job: uploaded, enqueued and reported; enqueued but not
-- reportable; failed, as the queue refused it; or as it was.
abbrev pub Enqueued : {X : Type 0} → Backends X → ℕ → X → World X → Type 0
Enqueued backends i x after =
    ((backends.enqueue i x).0 ≡ ok tt) × (after.outside ≡ (backends.enqueue i x).1)

abbrev pub Confirming :
    {X : Type 0} → Backends X → ℕ → Job → X → Result PipelineStartResult × World X → Type 0
Confirming backends i job x (ok result, after) =
    (row : Job) × (job_at after.db i ≡ some row)
    × (row.status ≡ uploaded)
    × (pipeline_start_result row ≡ ok result)
    × Enqueued backends i x after
Confirming backends i job x (err e, after) =
    (row : Job) × (job_at after.db i ≡ some row)
    × (((row ≡ job) × (after.outside ≡ x))
        ⊎ ((row.status ≡ failed_status) ⊎ ((row.status ≡ uploaded) × Enqueued backends i x after)))

-- A returned confirmation was one of an object of the expected size and content type.
abbrev pub Matched :
    {A : Type 0} → UploadMetadata → Result (Option ObjectMetadata) → Result A → Type 0
Matched expected read (err e) = Unit
Matched expected read (ok a) =
    (found : ObjectMetadata) × (read ≡ ok (some found))
    × (found.size_bytes ≡ expected.size_bytes)
    × (found.content_type ≡ some expected.content_type)

same_option_iff : (o : Option String) (s : String) → same_option o s ≡ true → o ≡ some s
same_option_iff none s h = cc
same_option_iff (some t) s h = ap some ((str_eq_iff t s).0 h)

Matched-any :
    {A : Type 0} (expected : UploadMetadata) (found : Option ObjectMetadata)
    → check_object expected found ≡ ok tt
    → (r : Result A) → Matched expected (ok found) r
unfolding check_object
Matched-any expected found passed (err e) = tt
Matched-any expected none passed (ok a) = cc
Matched-any expected (some found) passed (ok a) = (
  found,
  refl,
  ground (arith, ==_iff found.size_bytes expected.size_bytes),
  ground (arith, same_option_iff found.content_type expected.content_type),
)

pending_tests : (s : String) → s ≡ pending → (str_eq s uploaded ≡ false) × (str_eq s pending ≡ true)
pending_tests s e = rw e (refl, refl)

pending_text : (s : String) → s ≡ pending → job_required_str (some s) ≡ ok s
unfolding job_required_str strip
pending_text s e = rw e refl

module _ {X : Type 0} (backends : Backends X) (user_id : ℤ) (i : ℕ) where
  mark_and_enqueue-Confirming :
      (object_key : String) (w : World X) (job : Job)
      → Keyed w.db.tables.next_id w.db.tables.jobs
      → w.db.outages ≡ []
      → job_at w.db i ≡ some job
      → job.status ≡ pending
      → Confirming backends i job w.outside (mark_and_enqueue backends user_id i object_key w)
  unfolding mark_and_enqueue
  mark_and_enqueue-Confirming object_key w job keyed calm here is_pending =
      let file : StoredFile = record {
        key = object_key;
        uri = backends.uri object_key;
        backend = backends.backend;
      } in
      elim (mark_uploaded-cases i w.db keyed calm (build_uploaded_job_payload file) job here
        is_pending) [
          | inl (backend, key, uri, moves) ↦
              let row = stamped (upload_values backend key uri) w.db.now job in
              let after = (Adapters.mark_uploaded i (build_uploaded_job_payload file) w.db).1 in
              elim (Result-cases (backends.enqueue i w.outside).0) [
                | inl (done, queued) ↦ elim (Result-cases (pipeline_start_result row)) [
                  | inl (result, reported) ↦
                      rw (moves.returned, queued, reported)
                        (row, moves.row, refl, reported, (queued, refl))
                  | inr (e, unreported) ↦
                      rw (moves.returned, queued, unreported)
                        (row, moves.row, inr (inr (refl, (queued, refl))))
                ]
                | inr (e, lost) ↦
                    let x = (backends.enqueue i w.outside).1 in
                    rw
                      (
                        moves.returned,
                        lost,
                        mark_failed_safely-ok i e (record { db = after; outside = x }),
                      )
                      (
                        stamped (fail_values (build_failed_job_payload e)) after.now row,
                        mark_failed_safely-fails (record { db = after; outside = x }) i row
                            moves.keys moves.calm moves.row refl e x,
                        inr (inl refl),
                      )
              ]
          | inr (e, raised) ↦ elim (Bool-cases (is_instance ErrorClass.job_store e)) [
            | inl refused ↦ elim (Bool-cases (eq_ℤ job.user_id user_id)) [
              | inl own ↦
                  rw
                    (
                      raised,
                      refused,
                      get_job-calm i w.db calm,
                      here,
                      own,
                      (pending_tests job.status is_pending).0,
                    )
                    (job, here, inl (refl, refl))
              | inr other ↦
                  rw (raised, refused, get_job-calm i w.db calm, here, other)
                    (job, here, inl (refl, refl))
            ]
            | inr failed ↦ rw (raised, failed) (job, here, inl (refl, refl))
          ]
        ]

  confirm-pending :
      (w : World X) (job : Job) (get_metadata : String → Exec X (Option ObjectMetadata))
      → Keyed w.db.tables.next_id w.db.tables.jobs
      → w.db.outages ≡ []
      → job_at w.db i ≡ some job
      → job.status ≡ pending
      → eq_ℤ job.user_id user_id ≡ true
      → (expected : UploadMetadata) → direct_upload_metadata job ≡ ok expected
      → let read = get_metadata (job_input_key i expected.filename) w.outside in
        Matched expected read.0 (confirm backends (some get_metadata) user_id i w).0
        × Confirming backends i job read.1 (confirm backends (some get_metadata) user_id i w)
  confirm-pending w job get_metadata keyed calm here is_pending own expected described =
      let is_not = pending_tests job.status is_pending in
      let required = pending_text job.status is_pending in
      let read = get_metadata (job_input_key i expected.filename) w.outside in
      rw (get_job-calm i w.db calm, here, own, required, is_not.0, is_not.1, described)
        (elim (Result-cases read.0) [
          | inl (found, answered) ↦ elim (Result-cases (check_object expected found)) [
            | inl (done, passed) ↦
                rw (answered, passed)
                  (
                    Matched-any expected found passed _,
                    mark_and_enqueue-Confirming (job_input_key i expected.filename)
                        (record w { outside = read.1 }) job keyed calm here is_pending,
                  )
            | inr (e, refused) ↦ rw (answered, refused) (tt, (job, here, inl (refl, refl)))
          ]
          | inr (e, lost) ↦ rw lost (tt, (job, here, inl (refl, refl)))
        ])

  pub confirm_pending :
      (w : World X) (job : Job) (get_metadata : String → Exec X (Option ObjectMetadata))
      → Keyed w.db.tables.next_id w.db.tables.jobs
      → w.db.outages ≡ []
      → job_at w.db i ≡ some job
      → job.status ≡ pending
      → eq_ℤ job.user_id user_id ≡ true
      → backends.get_object_metadata ≡ some get_metadata
      → (expected : UploadMetadata) → direct_upload_metadata job ≡ ok expected
      → let read = get_metadata (job_input_key i expected.filename) w.outside in
        Matched expected read.0 (confirm_presigned_upload backends user_id i w).0
        × Confirming backends i job read.1 (confirm_presigned_upload backends user_id i w)
  unfolding confirm_presigned_upload
  confirm_pending w job get_metadata keyed calm here is_pending own supported expected described =
      let read = get_metadata (job_input_key i expected.filename) w.outside in
      subst
        (λ (o : Option (String → Exec X (Option ObjectMetadata))).
          Matched expected read.0 (confirm backends o user_id i w).0
          × Confirming backends i job read.1 (confirm backends o user_id i w))
        (sym supported)
        (confirm-pending w job get_metadata keyed calm here is_pending own expected described)
