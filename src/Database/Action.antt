-- ===== src/Database/Action.antt =====
-- Service calls: a call reads and writes the database and may raise. What was written before a raise
-- stays written, unless `transaction.atomic` rolls it back.
use vsat_frequency_managemen.Calculations.Errors.{Error}
use vsat_frequency_managemen.Calculations.Translation.{translate}
use vsat_frequency_managemen.Database.{Db, Event}
use vsat_frequency_managemen.Prelude.{Bool, Result, [], err, if◌then◌else◌, ok, ◌++◌, ◌∷◌}

-- The exceptions of the services, and the database's own.
pub data Failure : Type 0 where
  permission_denied_error transition_refused illegal_transition not_editable : Failure
  stale_record approval_refused_error outside_entitlement integrity_error : Failure
  operational_error path_blocked : Failure
  spectrum_conflict : (was_deadlock : Bool) → Failure
  validation_error row_missing : Failure
  calculation_error : Error → Failure

abbrev pub Action : Type 0 → Type 0
Action A = Db → Result Failure A × Db

module _ {A : Type 0} where
  abbrev pub pure : A → Action A
  pure a db = (ok a, db)

  abbrev pub raise : Failure → Action A
  raise e db = (err e, db)

  -- `transaction.atomic`: a raise undoes every write of the block.
  abbrev pub atomic : Action A → Action A
  atomic m db = let (r, db') = m db in elim r [ ok a ↦ (ok a, db') | err e ↦ (err e, db) ]

  -- `try: m except E as exc: raise F`, where `translate` leaves what is not caught.
  abbrev pub translating : (Failure → Failure) → Action A → Action A
  translating translate m db =
      let (r, db') = m db in elim r [ ok a ↦ (ok a, db') | err e ↦ (err (translate e), db') ]

infixl 5 ◌>>=◌ ◌>>◌
abbrev pub ◌>>=◌ : {A B : Type 0} → Action A → (A → Action B) → Action B
◌>>=◌ m f db = let (r, db') = m db in elim r [ ok a ↦ f a db' | err e ↦ (err e, db') ]

abbrev pub ◌>>◌ : {A B : Type 0} → Action A → Action B → Action B
m >> k = m >>= λ _. k

-- `if c: raise e`
abbrev pub refuse_if : Bool → Failure → Action (Unit {0})
refuse_if c e db = (if c then err e else ok tt, db)

-- `audit_services.record`
abbrev pub record_event : Event → Action (Unit {0})
record_event e db = (ok tt, record db { audit = db.audit ++ e ∷ [] })

-- A computation that may raise, and touches no row.
abbrev pub computed : {A : Type 0} → Result Error A → Action A
computed (ok a) db = (ok a, db)
computed (err e) db = (err (calculation_error e), db)

-- A query.
abbrev pub read : {A : Type 0} → (Db → A) → Action A
read f db = (ok (f db), db)

abbrev pub checked : {A : Type 0} → Result Failure A → Action A
checked r db = (r, db)
