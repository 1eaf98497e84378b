-- ===== src/Database/Calls.antt =====
-- Laws of service calls: inversion of a call that returned, and what a refused call leaves behind.
use vsat_frequency_managemen.Database.{Db}
use vsat_frequency_managemen.Database.Action.{
  Action, Failure, atomic, refuse_if, translating, ◌>>=◌,
}
use vsat_frequency_managemen.Prelude.{Bool, Result, err, false, ok, refl, true, ◌∙◌, ◌≡◌}

-- A call that returned went through each of its parts.
pub bind_ok :
    {A B : Type 0} (m : Action A) (f : A → Action B) (db : Db) (b : B) (db' : Db)
    → (m >>= f) db ≡ (ok b, db')
    → (a : A) × (mid : Db) × (m db ≡ (ok a, mid)) × (f a mid ≡ (ok b, db'))
bind_ok {A} {B} m f db b db' e = split (m db) refl e
  where
    split :
        (r : Result Failure A × Db)
        → m db ≡ r
        → (let (x, d) = r in
            let y : Result Failure B × Db = elim x [ ok a ↦ f a d | err e ↦ (err e, d) ] in
            y ≡ (ok b, db'))
        → (a : A) × (mid : Db) × (m db ≡ (ok a, mid)) × (f a mid ≡ (ok b, db'))
    split (ok a, mid) p q = (a, mid, p, q)
    split (err x, mid) p q = cc

pub atomic_ok :
    {A : Type 0} (m : Action A) (db : Db) (a : A) (db' : Db)
    → atomic m db ≡ (ok a, db')
    → m db ≡ (ok a, db')
atomic_ok {A} m db a db' e = split (m db) refl e
  where
    split :
        (r : Result Failure A × Db)
        → m db ≡ r
        → (let (x, d) = r in
            let y : Result Failure A × Db = elim x [ ok a ↦ (ok a, d) | err e ↦ (err e, db) ] in
            y ≡ (ok a, db'))
        → m db ≡ (ok a, db')
    split (ok x, mid) p q = p ∙ q
    split (err x, mid) p q = cc

pub translating_ok :
    {A : Type 0} (t : Failure → Failure) (m : Action A) (db : Db) (a : A) (db' : Db)
    → translating t m db ≡ (ok a, db')
    → m db ≡ (ok a, db')
translating_ok {A} t m db a db' e = split (m db) refl e
  where
    split :
        (r : Result Failure A × Db)
        → m db ≡ r
        → (let (x, d) = r in
            let y : Result Failure A × Db = elim x [ ok a ↦ (ok a, d) | err e ↦ (err (t e), d) ] in
            y ≡ (ok a, db'))
        → m db ≡ (ok a, db')
    split (ok x, mid) p q = p ∙ q
    split (err x, mid) p q = cc

-- The two databases differ in the audit trail at most.
abbrev pub SameRows : Db → Db → Type 0
SameRows db db' =
    (db'.paths ≡ db.paths) × (db'.reservations ≡ db.reservations) × (db'.decisions ≡ db.decisions)

-- The call changes no row, whether it returns or raises.
pub record IsQuiet {A : Type 0} (m : Action A) : Type 0 where
  pub quiet : (db : Db) → SameRows db (m db).1

-- What the outcome of a call on `db` shows, if it raised.
abbrev pub CleanOutcome : {A : Type 0} → Db → Result Failure A × Db → Type 0
CleanOutcome db (ok a, db') = Unit
CleanOutcome db (err e, db') = SameRows db db'

-- Where the call raises, it has changed no row.
pub record FailsCleanly {A : Type 0} (m : Action A) : Type 0 where
  pub clean : (db : Db) → CleanOutcome db (m db)

SameRows-trans : (a b c : Db) → SameRows a b → SameRows b c → SameRows a c
SameRows-trans a b c h k = (k.0 ∙ h.0, k.1 ∙ h.1, k.2 ∙ h.2)

CleanOutcome-after :
    {A : Type 0} (a b : Db) (r : Result Failure A × Db)
    → SameRows a b
    → CleanOutcome b r
    → CleanOutcome a r
CleanOutcome-after a b (ok x, c) h k = tt
CleanOutcome-after a b (err e, c) h k = SameRows-trans a b c h k

pub FailsCleanly-bind :
    {A B : Type 0} (m : Action A) (f : A → Action B)
    → IsQuiet m
    → ((a : A) → FailsCleanly (f a))
    → FailsCleanly (m >>= f)
FailsCleanly-bind {A} {B} m f q k = record { clean = λ db. split db (m db) (q.quiet db) }
  where
    split :
        (db : Db) (r : Result Failure A × Db)
        → SameRows db r.1
        → CleanOutcome {A = B} db (elim r.0 [ ok a ↦ f a r.1 | err e ↦ (err e, r.1) ])
    split db (ok a, mid) same = CleanOutcome-after db mid (f a mid) same ((k a).clean mid)
    split db (err e, mid) same = same

pub FailsCleanly-atomic : {A : Type 0} (m : Action A) → FailsCleanly (atomic m)
FailsCleanly-atomic {A} m = record { clean = λ db. split db (m db) }
  where
    split :
        (db : Db) (r : Result Failure A × Db)
        → CleanOutcome {A = A} db (elim r.0 [ ok a ↦ (ok a, r.1) | err e ↦ (err e, db) ])
    split db (ok a, mid) = tt
    split db (err e, mid) = (refl, refl, refl)

-- A call that raised.
pub clean_of :
    {A : Type 0} (m : Action A) (db db' : Db) (e : Failure)
    → FailsCleanly m
    → m db ≡ (err e, db')
    → SameRows db db'
clean_of m db db' e h p = rw p at (h.clean db)

pub IsQuiet-refuse_if : (c : Bool) (e : Failure) → IsQuiet (refuse_if c e)
IsQuiet-refuse_if c e = record { quiet = λ db. (refl, refl, refl) }

-- A test that let the call pass.
pub refuse_if_ok :
    (c : Bool) (e : Failure) (db mid : Db) (u : Unit {0})
    → refuse_if c e db ≡ (ok u, mid)
    → (c ≡ false) × (mid ≡ db)
refuse_if_ok true e db mid u p = cc
refuse_if_ok false e db mid u p = (refl, cc)

-- What follows the last write cannot raise.
pub FailsCleanly-finish :
    {A B : Type 0} (m : Action A) (f : A → Action B)
    → FailsCleanly m
    → ((a : A) (db : Db) → (b : B) × (db' : Db) × (f a db ≡ (ok b, db')))
    → FailsCleanly (m >>= f)
FailsCleanly-finish {A} {B} m f q k = record { clean = λ db. split db (m db) (q.clean db) }
  where
    split :
        (db : Db) (r : Result Failure A × Db)
        → CleanOutcome db r
        → CleanOutcome {A = B} db (elim r.0 [ ok a ↦ f a r.1 | err e ↦ (err e, r.1) ])
    split db (ok a, mid) h = rw ((k a mid).2) tt
    split db (err e, mid) h = h
