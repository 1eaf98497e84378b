-- ===== src/Database/Steps.antt =====
-- Calls run forward: what a block does once its first call is known.
use vsat_frequency_managemen.Database.{Db}
use vsat_frequency_managemen.Database.Action.{Action, Failure, atomic, translating, ◌>>=◌}
use vsat_frequency_managemen.Prelude.{ap, err, ok, ◌≡◌}

module _ {A B : Type 0} (m : Action A) (f : A → Action B) (db : Db) where
  pub bind_step : (a : A) (mid : Db) → m db ≡ (ok a, mid) → (m >>= f) db ≡ f a mid
  bind_step a mid e = ap (λ x. elim x.0 [ ok a ↦ f a x.1 | err y ↦ (err y, x.1) ]) e

  pub bind_fail : (x : Failure) (mid : Db) → m db ≡ (err x, mid) → (m >>= f) db ≡ (err x, mid)
  bind_fail x mid e = ap (λ w. elim w.0 [ ok a ↦ f a w.1 | err y ↦ (err y, w.1) ]) e

pub atomic_fail :
    {A : Type 0} (m : Action A) (x : Failure) (db mid : Db)
    → m db ≡ (err x, mid)
    → atomic m db ≡ (err x, db)
atomic_fail m x db mid e = ap (λ w. elim w.0 [ ok a ↦ (ok a, w.1) | err y ↦ (err y, db) ]) e

pub translating_fail :
    {A : Type 0} (t : Failure → Failure) (m : Action A) (x : Failure) (db mid : Db)
    → m db ≡ (err x, mid)
    → translating t m db ≡ (err (t x), mid)
translating_fail t m x db mid e =
    ap (λ w. elim w.0 [ ok a ↦ (ok a, w.1) | err y ↦ (err (t y), w.1) ]) e

pub atomic_step :
    {A : Type 0} (m : Action A) (a : A) (db mid : Db)
    → m db ≡ (ok a, mid)
    → atomic m db ≡ (ok a, mid)
atomic_step m a db mid e = ap (λ w. elim w.0 [ ok b ↦ (ok b, w.1) | err y ↦ (err y, db) ]) e

pub translating_step :
    {A : Type 0} (t : Failure → Failure) (m : Action A) (a : A) (db mid : Db)
    → m db ≡ (ok a, mid)
    → translating t m db ≡ (ok a, mid)
translating_step t m a db mid e =
    ap (λ w. elim w.0 [ ok b ↦ (ok b, w.1) | err y ↦ (err (t y), w.1) ]) e
