-- ===== src/Database.antt =====
-- The program's calls of its database: actions with exceptions over a state, SQL statements that
-- can fail, and the scopes of src/app/store/database.py.
pub mod Laws
pub mod Effects
use Prim.Native.String.{◌++◌}
use kyrgstudio.Base.{◌≡◌, refl, ◌⊎◌, inl, inr, ℕ, String, Option, none, some, List, [], ◌∷◌}
use kyrgstudio.Base.Json.{text, Fields, field, end}
use kyrgstudio.Errors.{ErrorClass, Error, new_error}

pub data Result (A : Type 0) : Type 0 where
  ok : A → Result A
  err : Error → Result A

-- A call that reads and writes a state and returns or raises. What was written before a raise
-- stays written, so the state comes back beside the error too.
abbrev pub Exec : Type 0 → Type 0 → Type 0
Exec S A = S → Result A × S

module _ {S A : Type 0} where
  abbrev pub pure : A → Exec S A
  pure a s = (ok a, s)

  abbrev pub raise : Error → Exec S A
  raise e s = (err e, s)

  abbrev pub lift : Result A → Exec S A
  lift r s = (r, s)

  abbrev pub catch_in : (Error → Exec S A) → Result A × S → Result A × S
  catch_in handler (ok a, s) = (ok a, s)
  catch_in handler (err e, s) = handler e s

  -- `try: … except Exception as error: …`
  abbrev pub catch : Exec S A → (Error → Exec S A) → Exec S A
  catch m handler s = catch_in handler (m s)

abbrev pub bind_result : {A B : Type 0} → Result A → (A → Result B) → Result B
bind_result (ok a) f = f a
bind_result (err e) f = err e

pub Result-cases :
    {A : Type 0} (r : Result A) → ((a : A) × (r ≡ ok a)) ⊎ ((e : Error) × (r ≡ err e))
Result-cases (ok a) = inl (a, refl)
Result-cases (err e) = inr (e, refl)

infixl 5 ◌>>=◌ ◌>>◌
abbrev pub then_in : {S A B : Type 0} → (A → Exec S B) → Result A × S → Result B × S
then_in f (ok a, s) = f a s
then_in f (err e, s) = (err e, s)

abbrev pub ◌>>=◌ : {S A B : Type 0} → Exec S A → (A → Exec S B) → Exec S B
◌>>=◌ m f s = then_in f (m s)

abbrev pub ◌>>◌ : {S A B : Type 0} → Exec S A → Exec S B → Exec S B
m >> k = m >>= λ _. k

-- The tables, the clock that `func.now()` reads, and for each statement to come the class of the
-- `SQLAlchemyError` that it raises, if it raises one; no statement beyond the list fails.
pub record Database (T : Type 0) : Type 0 where
  pub tables : T
  pub now : ℕ
  pub outages : List (Option String)

-- What a statement comes to: its result, a violated constraint, or another `SQLAlchemyError`.
pub data Outcome (A : Type 0) : Type 0 where
  done : A → Outcome A
  integrity : String → Outcome A
  failed : String → Outcome A

abbrev pub first_outage : List (Option String) → Option String
first_outage [] = none
first_outage (o ∷ rest) = o

abbrev pub later_outages : List (Option String) → List (Option String)
later_outages [] = []
later_outages (o ∷ rest) = rest

module _ {T A : Type 0} where
  abbrev attempt : Option String → (ℕ → T → Outcome A × T) → Database T → Outcome A × Database T
  attempt (some name) run db = (failed name, record db { outages = later_outages db.outages })
  attempt none run db =
      let (o, t) = run db.now db.tables in
      (o, record db { tables = t; outages = later_outages db.outages })

  -- One statement: it fails and changes nothing, or it runs at the time of the transaction.
  unfoldable pub statement : (ℕ → T → Outcome A × T) → Database T → Outcome A × Database T
  statement run db = attempt (first_outage db.outages) run db

  -- A query changes nothing.
  unfoldable pub query : (T → A) → Database T → Outcome A × Database T
  unfolding statement
  query look = statement (λ _ t. (done (look t), t))

-- `COMMIT`, which can fail as a statement can
unfoldable pub commit : {T : Type 0} → Database T → Outcome (Unit {0}) × Database T
unfolding query
commit {T} = query (λ (t : T). tt)

unfoldable pub transaction_failed : String → Error
transaction_failed name =
    new_error ErrorClass.store ("Database transaction failed: " ++ name) none
      (field "operation" (text "transaction_scope") end)

abbrev rolled_back : {T : Type 0} → Database T → Database T → Database T
rolled_back before after = record after { tables = before.tables }

module _ {T A : Type 0} where
  abbrev close_scope : Database T → A → Outcome (Unit {0}) × Database T → Result A × Database T
  close_scope before a (done _, after) = (ok a, after)
  close_scope before a (integrity name, after) =
      (err (transaction_failed name), rolled_back before after)
  close_scope before a (failed name, after) =
      (err (transaction_failed name), rolled_back before after)

  abbrev end_scope : Database T → Result A × Database T → Result A × Database T
  end_scope before (ok a, after) = close_scope before a (commit after)
  end_scope before (err e, after) = (err e, rolled_back before after)

  -- `async with async_transaction_scope(…)`: the block commits at its end, and an exception undoes
  -- what it wrote. No store of the program lets a `SQLAlchemyError` reach the scope.
  unfoldable pub transaction : Exec (Database T) A → Exec (Database T) A
  unfolding commit transaction_failed
  transaction m before = end_scope before (m before)

  -- `async with async_session_scope(…)`: the block only reads, and nothing is committed.
  unfoldable pub read_scope : Exec (Database T) A → Exec (Database T) A
  read_scope m before = let (r, after) = m before in (r, rolled_back before after)

module _ {T A : Type 0} where
  abbrev answered :
      (String → Error) → (String → Error) → Outcome A × Database T → Result A × Database T
  answered on_conflict on_failure (done a, db) = (ok a, db)
  answered on_conflict on_failure (integrity name, db) = (err (on_conflict name), db)
  answered on_conflict on_failure (failed name, db) = (err (on_failure name), db)

  -- A statement in a `try` whose clauses raise these errors for an `IntegrityError` and for another
  -- `SQLAlchemyError`, from the name of the exception's class.
  unfoldable pub sql :
      (String → Error) → (String → Error) → (ℕ → T → Outcome A × T) → Exec (Database T) A
  unfolding statement
  sql on_conflict on_failure run db = answered on_conflict on_failure (statement run db)

  -- A query in a `try` with one clause.
  unfoldable pub sql_query : (String → Error) → (T → A) → Exec (Database T) A
  unfolding sql
  sql_query on_failure look = sql on_failure on_failure (λ _ t. (done (look t), t))

  abbrev end_savepoint : Database T → Result A × Database T → Result A × Database T
  end_savepoint before (ok a, after) = (ok a, after)
  end_savepoint before (err e, after) = (err e, rolled_back before after)

  -- `async with async_savepoint_scope(…)`: an exception undoes what the block wrote. The statements
  -- that open and release the savepoint stand with those of the block.
  unfoldable pub savepoint : Exec (Database T) A → Exec (Database T) A
  savepoint m before = end_savepoint before (m before)
