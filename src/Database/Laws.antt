-- ===== src/Database/Laws.antt =====
-- What the scopes of src/app/store/database.py keep, whatever the block does.
use kyrgstudio.Base.{refl, ◌≡◌, arith, ℕ, String, inl, inr}
use kyrgstudio.Errors.{Error}
use kyrgstudio.Database.{
  lift, ◌>>=◌, Result, ok, err, Exec, Database, statement, query, transaction, Outcome, done, sql,
  sql_query, savepoint, then_in, Result-cases,
}

-- A block that raises leaves the tables as they were.
pub transaction-err :
    {T A : Type 0} (m : Exec (Database T) A) (db : Database T) (e : Error)
    → (transaction m db).0 ≡ err e
    → (transaction m db).1.tables ≡ db.tables
unfolding transaction query statement
transaction-err m db e h = ground arith

-- A block that returns was committed: the result and the tables are those at its end.
pub transaction-ok :
    {T A : Type 0} (m : Exec (Database T) A) (db : Database T) (a : A)
    → (transaction m db).0 ≡ ok a
    → ((m db).0 ≡ ok a) × ((transaction m db).1.tables ≡ (m db).1.tables)
unfolding transaction query statement
transaction-ok m db a h = ground arith

-- A block that begins with a check of its arguments: the check raises and nothing happens, or the
-- rest of the block is the block.
pub transaction-lift :
    {T A B : Type 0} (P : Result B × Database T → Type 0) (r : Result A)
    (f : A → Exec (Database T) B) (db : Database T)
    → ((e : Error) → P (err e, db))
    → ((a : A) → r ≡ ok a → P (transaction (f a) db))
    → P (transaction (lift r >>= f) db)
transaction-lift P (ok a) f db raises goes_on = goes_on a refl
transaction-lift P (err e) f db raises goes_on = unfold transaction in raises e

-- What returns came from steps that returned.
pub bind-ok :
    {S A B : Type 0} (m : Exec S A) (f : A → Exec S B) (s : S) (b : B)
    → ((m >>= f) s).0 ≡ ok b
    → (a : A) × ((m s).0 ≡ ok a) × ((m >>= f) s ≡ f a (m s).1)
bind-ok {S = S} {A = A} {B = B} m f s b h = split (m s) h
  where
    split :
        (r : Result A × S)
        → (then_in f r).0 ≡ ok b
        → (a : A) × (r.0 ≡ ok a) × (then_in f r ≡ f a r.1)
    split (ok a, mid) k = (a, refl, refl)
    split (err e, mid) k = ground arith

-- A statement in a `try` that returns has run.
pub sql-ok :
    {T A : Type 0} (on_conflict on_failure : String → Error) (run : ℕ → T → Outcome A × T)
    (db : Database T) (a : A)
    → (sql on_conflict on_failure run db).0 ≡ ok a
    → ((run db.now db.tables).0 ≡ done a)
      × ((sql on_conflict on_failure run db).1.tables ≡ (run db.now db.tables).1)
      × ((sql on_conflict on_failure run db).1.now ≡ db.now)
unfolding sql statement
sql-ok on_conflict on_failure run db a h = ground arith

pub sql_query-ok :
    {T A : Type 0} (on_failure : String → Error) (look : T → A) (db : Database T) (a : A)
    → (sql_query on_failure look db).0 ≡ ok a
    → (look db.tables ≡ a)
      × ((sql_query on_failure look db).1.tables ≡ db.tables)
      × ((sql_query on_failure look db).1.now ≡ db.now)
unfolding sql_query sql statement
sql_query-ok on_failure look db a h = ground arith

pub savepoint-ok :
    {T A : Type 0} (m : Exec (Database T) A) (db : Database T) (a : A)
    → (savepoint m db).0 ≡ ok a
    → savepoint m db ≡ m db
unfolding savepoint
savepoint-ok m db a h = ground arith

-- A savepoint that returns leaves what its block leaves, and one that raises leaves the tables.
pub savepoint-cases :
    {T A : Type 0} (R : T → T → Type 0) (m : Exec (Database T) A) (db : Database T)
    → R db.tables db.tables
    → ((a : A) → (m db).0 ≡ ok a → R db.tables (m db).1.tables)
    → R db.tables (savepoint m db).1.tables
unfolding savepoint
savepoint-cases {A = A} R m db same then = elim (Result-cases (m db).0) [
  | inl (a, eq) ↦ ground (arith, then a eq)
  | inr (e, eq) ↦ ground arith
]
