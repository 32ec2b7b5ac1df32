-- ===== src/Database/Effects.antt =====
-- What a call does to the tables, as a relation between the tables before and after it, composed from
-- the relations of its statements.
use kyrgstudio.Base.{ℕ, ◌≡◌, refl, String, arith}
use kyrgstudio.Errors.{Error}
use kyrgstudio.Database.{
  Result, ok, err, Exec, pure, raise, lift, ◌>>=◌, Database, Outcome, done, statement, query, sql,
  sql_query, savepoint, transaction, read_scope, then_in,
}

-- The call relates the tables before it to those after it, whether it returns or raises.
pub record Effect {T A : Type 0} (R : T → T → Type 0) (m : Exec (Database T) A) : Type 0 where
  pub holds : (db : Database T) → R db.tables (m db).1.tables

-- The statement relates them.
abbrev pub StatementEffect : {T A : Type 0} → (T → T → Type 0) → (ℕ → T → Outcome A × T) → Type 0
StatementEffect {T} R run = (now : ℕ) (t : T) → R t (run now t).1

-- A call with one relation before a call with another.
pub Effect-bind :
    {T A B : Type 0} (R S Q : T → T → Type 0) (m : Exec (Database T) A)
    (f : A → Exec (Database T) B)
    → ((a b : T) → R a b → Q a b)
    → ((a b c : T) → R a b → S b c → Q a c)
    → Effect R m
    → ((a : A) → Effect S (f a))
    → Effect Q (m >>= f)
Effect-bind {T} {A} {B} R S Q m f early join start go_on = record {
  holds = λ db. after db (m db) (start.holds db);
}
  where
    after :
        (db : Database T) (r : Result A × Database T)
        → R db.tables r.1.tables
        → Q db.tables (then_in f r).1.tables
    after db (ok a, mid) h = join db.tables mid.tables (f a mid).1.tables h ((go_on a).holds mid)
    after db (err e, mid) h = early db.tables mid.tables h

module _ {T : Type 0} (R : T → T → Type 0) (same : (t : T) → R t t) where
  pub Effect-pure : {A : Type 0} (a : A) → Effect R (pure a)
  Effect-pure a = record { holds = λ db. same db.tables }

  pub Effect-raise : {A : Type 0} (e : Error) → Effect {A = A} R (raise e)
  Effect-raise e = record { holds = λ db. same db.tables }

  -- A check before the rest: the rest may use what the check found.
  pub Effect-check :
      {A B : Type 0} (r : Result A) (f : A → Exec (Database T) B)
      → ((a : A) → r ≡ ok a → Effect R (f a))
      → Effect R (lift r >>= f)
  Effect-check (ok a) f go_on = record { holds = λ db. (go_on a refl).holds db }
  Effect-check (err e) f go_on = record { holds = λ db. same db.tables }

  pub Effect-sql :
      {A : Type 0} (on_conflict on_failure : String → Error) (run : ℕ → T → Outcome A × T)
      → StatementEffect R run
      → Effect R (sql on_conflict on_failure run)
  unfolding sql statement
  Effect-sql on_conflict on_failure run h = record {
    holds = λ db. ground (arith, h db.now db.tables, same db.tables);
  }

  pub Effect-sql_query :
      {A : Type 0} (on_failure : String → Error) (look : T → A)
      → Effect R (sql_query on_failure look)
  unfolding sql_query
  Effect-sql_query on_failure look = record {
    holds = λ db.
        (Effect-sql on_failure on_failure (λ _ t. (done (look t), t)) (λ now t. same t)).holds db;
  }

  pub Effect-savepoint :
      {A : Type 0} (m : Exec (Database T) A) → Effect R m → Effect R (savepoint m)
  unfolding savepoint
  Effect-savepoint m h = record { holds = λ db. ground (arith, h.holds db, same db.tables) }

  pub Effect-transaction :
      {A : Type 0} (m : Exec (Database T) A) → Effect R m → Effect R (transaction m)
  unfolding transaction query statement
  Effect-transaction m h = record { holds = λ db. ground (arith, h.holds db, same db.tables) }

  pub Effect-read_scope : {A : Type 0} (m : Exec (Database T) A) → Effect R (read_scope m)
  unfolding read_scope
  Effect-read_scope m = record { holds = λ db. same db.tables }
