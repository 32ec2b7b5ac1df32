-- ===== src/World.antt =====
-- The whole state of a process: the job store's database, and the state of the storage, the queue and
-- the other backends, which a call of one leaves to the other.
use kyrgstudio.Database.{Exec}
use kyrgstudio.Jobs.Store.{JobDb}

-- The database, and the state of the storage and of the queue.
pub record World (X : Type 0) : Type 0 where
  pub db : JobDb
  pub outside : X

module _ {X A : Type 0} where
  abbrev pub in_db : Exec JobDb A → Exec (World X) A
  in_db m w = let (r, db) = m w.db in (r, record w { db = db })

  abbrev pub in_outside : Exec X A → Exec (World X) A
  in_outside m w = let (r, x) = m w.outside in (r, record w { outside = x })
