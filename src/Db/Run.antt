-- ===== src/Db/Run.antt =====
-- How a prepared statement and a sequence of actions run.
use tizcord.Base.{◌≡◌, refl, ap, true, some, ◌>>=◌}
use tizcord.Db.Sql.{Sql}
use tizcord.Db.Env.{Env}
use tizcord.Db.World.{World, Action, run}

module _ (e : Env) where
  pub run-prepared :
      (sql : Sql) (w : World e)
      → e.prepare w.conn sql ≡ true
      → run e sql w ≡ (some (e.execute w.conn sql).1, record w { conn = (e.execute w.conn sql).0 })
  unfolding run
  run-prepared sql w good = rw good refl

  pub bind-at :
      {A B : Type 0} (m : Action e A) (f : A → Action e B) (w w' : World e) (a : A)
      → m w ≡ (a, w')
      → (m >>= f) w ≡ f a w'
  unfolding ◌>>=◌
  bind-at m f w w' a h = ap (λ r. f r.0 r.1) h
