-- ===== src/Lib.antt =====
-- The back end of KyrgStudio: users upload a video or an audio file, the pipeline service makes a job
-- of it and puts the job in a queue, and a worker runs the job's workflow and stores the result.
--
-- How the parts interact. `PipelineService` (src/app/pipeline/service.py) normalizes the input,
-- creates the job's row through `PipelineJobStore`, stores the file, marks the row as uploaded and
-- enqueues its id. `WorkerRunner` (src/app/worker/runner.py) takes an id, loads the row through
-- `WorkerJobStore`, marks it as running, runs the workflow, and marks it as completed or failed. The two
-- share nothing but the table of jobs. Both stores wrap `SQLAlchemyJobStore` (src/app/store/jobs.py),
-- each call in a transaction of its own. Users sign in through `AuthStore`
-- (src/app/auth/transactional_store.py), which composes the stores of users, refresh sessions and
-- mailed tokens, several statements to a transaction, under `AuthService` (src/app/auth/service.py). It
-- shares no row with the jobs but the ids of users, which the model of the jobs keeps in a table of its
-- own.
--
-- Files:
--   Base         lists, integers, Python's string methods and JSON values
--   Errors       src/app/errors.py: `ErrorClass` has a constructor for each class, `Error` is an exception
--   Database     src/app/store/database.py: `Exec` is a call that reads and writes a state and returns or
--                raises; `transaction` is `async_transaction_scope`, `read_scope` `async_session_scope`,
--                `savepoint` `async_savepoint_scope`; `Effects` relates the tables before and after a call
--   Accounts     src/app/store/models.py: the users, the refresh sessions and the tokens in mails
--     Checks     the field checks of src/app/store/users.py and src/app/auth/transactional_store.py
--     Users      src/app/store/users.py: `SQLAlchemyUserStore`
--     Sessions   src/app/store/users.py: `SQLAlchemyAuthSessionStore`; its children say what the methods
--                do to the rows
--     ResetTokens, EmailTokens   src/app/store/password_resets.py, src/app/store/email_verifications.py
--     Records    the snapshots that src/app/auth/transactional_store.py returns
--     AuthStore  src/app/auth/transactional_store.py: `AuthStore`; `Calls` has its histories, the other
--                children what they keep
--   Auth         src/app/auth: the state of the services and what they call outside the program
--     Principal, Tokens, Passwords   principal.py, tokens.py, passwords.py
--     EmailVerification, PasswordReset   email_verification.py, password_reset.py
--     Service, Sessions   service.py: `AuthService`
--   Jobs         src/app/store/models.py: the rows `Job` and `JobEvent`, and the tables
--     Fields     the field checks of src/app/store/jobs.py
--     Store      `create_job`, the `get_` methods and `_transition_job`
--     Marks      the `mark_` methods
--     Listing    `list_user_jobs`
--     Adapters   src/app/pipeline/transactional_job_store.py, src/app/worker/transactional_job_store.py
--     Lifecycle  the life of a job along histories of calls; `Event` is a call of any process, or a change
--                of the clock and of the failures to come
--     Progress   what the calls do while the database answers
--   Storage      src/app/storage/paths.py
--   World        the database beside the state of the storage, the queue and the other backends
--   Pipeline     src/app/pipeline: `Input` is input.py, `Payloads` is jobs.py and files.py, `Service` and
--                `Confirm` are service.py
--   Worker       src/app/worker/runner.py
-- Modules named Tests run the theorems at concrete tables.
--
-- The model. A method is a function from the state to a result and the next state, so a call is one
-- step; calls of several processes interleave as a list of committed calls. A call of the job store
-- is one transaction with one guarded UPDATE or INSERT. A transaction of `AuthStore` has several
-- statements and is taken as one step too, which supposes that transactions are serializable; the
-- source locks the row of the session that a refresh decides on by SELECT ... FOR UPDATE. A
-- `Database` has tables, the time of `func.now()`, and a list that says which statements to come
-- fail: every theorem without a condition on `outages` holds for all failures. A native number
-- stands for a database key, a time, or a limit; a Python int is an integer; a float is
-- the bits of its double. The digits of a number are made with n + 1 rounds of fuel, which is enough
-- as each round divides by ten; no other definition has fuel.
--
-- Parameters. For src/app/auth, the record `Outside`: the clock, random texts, SHA-256, the hashing and
-- JWT libraries, the verifier of Google tokens and the sender of mails. For the jobs, the storage, the
-- queue, the file resolver, the workflow executor, the clock, SHA-256 of the sorted JSON text, Python's
-- `float()` and the output shaping of src/app/worker/outputs.py. They act on a state of their own and
-- cannot reach the database, which is all that is asked of them but where a theorem names more.
--
-- Not modelled: negative ids, which the checks refuse as they refuse 0, the wrong Python types that the
-- callers' annotations exclude, `str.lower` beyond ASCII, the id and the time of an event row, column
-- lengths, the messages shown to users, cancellation, and logging. The verifier of Google tokens
-- (src/app/auth/google.py), billing, the HTTP layer, the storage backends, the workflows of src/kyrg and
-- the command line have no model yet; the front end, the migrations and the vendored packages are left
-- out. The range of `datetime.fromtimestamp` is not modelled either: a token's date past the year 9999 is
-- taken as it is.
pub mod Accounts
pub mod Auth
pub mod Base
pub mod Errors
pub mod Database
pub mod Jobs
pub mod Storage
pub mod World
pub mod Worker
pub mod Pipeline
