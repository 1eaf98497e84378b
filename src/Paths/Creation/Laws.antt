-- ===== src/Paths/Creation/Laws.antt =====
-- What `create` of satnet_paths/services.py leaves, when it returns and when it refuses.
use vsat_frequency_managemen.Accounts.{Actor, may_act_on}
use vsat_frequency_managemen.Calculations.Errors.{Error}
use vsat_frequency_managemen.Database.{Db, Status, manage_paths, path_refused}
use vsat_frequency_managemen.Database.Action.{
  computed, path_blocked, pure, raise, record_event, ◌>>◌,
}
use vsat_frequency_managemen.Database.Calls.{
  FailsCleanly, FailsCleanly-atomic, FailsCleanly-bind, IsQuiet, SameRows,
}
use vsat_frequency_managemen.Paths.Creation.{
  Identity, count_findings, create, create_row, identity_of, is_operational, previewed,
  refuse_blocked, require_grants,
}
use vsat_frequency_managemen.Paths.Lifecycle.Effects.{IsQuiet-require}
use vsat_frequency_managemen.Paths.Preview.{
  PathFinding, PathValues, Proposal, SatnetRow, has_findings,
}
use vsat_frequency_managemen.Paths.Proposals.{preview}
use vsat_frequency_managemen.Prelude.{
  Bool, List, Option, Result, [], arith, err, false, if◌then◌else◌, none, ok, refl, true, ℕ, ◌&&◌,
  ◌∷◌, ◌≡◌,
}

IsQuiet-require_grants : (actor : Actor) (s : SatnetRow) → IsQuiet (require_grants actor s)
unfolding require_grants
IsQuiet-require_grants actor s = record { quiet = λ db. ground arith }

pub IsQuiet-computed : {A : Type 0} (r : Result Error A) → IsQuiet (computed r)
IsQuiet-computed (ok a) = record { quiet = λ db. (refl, refl, refl) }
IsQuiet-computed (err e) = record { quiet = λ db. (refl, refl, refl) }

pub IsQuiet-previewed :
    (now : ℕ) (s : SatnetRow) (values : PathValues) (exclude : Option ℕ)
    → IsQuiet (previewed now s values exclude)
unfolding previewed
IsQuiet-previewed now s values exclude = record {
  quiet = λ db. (IsQuiet-computed (preview db.reservations now s values exclude)).quiet db;
}

IsQuiet-refuse_blocked :
    (s : SatnetRow) (operational : Bool) (fs : List PathFinding)
    → IsQuiet (refuse_blocked s operational fs)
unfolding refuse_blocked
IsQuiet-refuse_blocked s operational fs = record {
  quiet = λ db. by_test db (has_findings fs && operational);
}
  where
    by_test :
        (db : Db) (b : Bool)
        → SameRows db
            ((if b
                then (do
                  record_event (path_refused ((s.beam).pk) (count_findings fs))
                  raise path_blocked)
                else pure tt)
              db).1
    by_test db true = (refl, refl, refl)
    by_test db false = (refl, refl, refl)

pub FailsCleanly-create_row :
    (suspended_retains : Bool) (actor : Actor) (s : SatnetRow) (values : PathValues)
    (status : Status) (p : Proposal) (reason : List ℕ) (i : Identity)
    → FailsCleanly (create_row suspended_retains actor s values status p reason i)
unfolding create_row
FailsCleanly-create_row suspended_retains actor s values status p reason i = FailsCleanly-atomic _

-- Creating a path that is refused, at whatever step, changes no row: neither a path nor a reservation
-- is left behind.
pub FailsCleanly-create :
    (suspended_retains : Bool) (now : ℕ) (fresh : ℕ × ℕ) (actor : Actor) (s : SatnetRow)
    (values : PathValues) (status : Status) (reason : List ℕ) (path_id revision_group : Option ℕ)
    → FailsCleanly
        (create suspended_retains now fresh actor s values status reason path_id revision_group)
unfolding create
FailsCleanly-create suspended_retains now fresh actor s values status reason path_id
      revision_group =
    FailsCleanly-bind _ _ (IsQuiet-require actor manage_paths) λ _.
      FailsCleanly-bind _ _ (IsQuiet-require_grants actor s) λ _.
        FailsCleanly-bind _ _ (IsQuiet-previewed now s values none) λ p.
          FailsCleanly-bind _ _ (IsQuiet-refuse_blocked s (is_operational status) p.findings) λ _.
            FailsCleanly-create_row suspended_retains actor s values status p reason
              (identity_of fresh path_id revision_group none)

pub require_grants_ok :
    (actor : Actor) (s : SatnetRow) (db mid : Db) (u : Unit {0})
    → require_grants actor s db ≡ (ok u, mid)
    → (may_act_on actor (s.network).beam_id s.hub_id ≡ true) × (mid ≡ db)
unfolding require_grants
require_grants_ok actor s db mid u e = ground arith

pub computed_ok :
    {A : Type 0} (r : Result Error A) (db mid : Db) (a : A)
    → computed r db ≡ (ok a, mid)
    → (r ≡ ok a) × (mid ≡ db)
computed_ok (ok x) db mid a e = (cc, cc)
computed_ok (err x) db mid a e = cc

pub previewed_ok :
    (now : ℕ) (s : SatnetRow) (values : PathValues) (exclude : Option ℕ) (db mid : Db)
    (p : Proposal)
    → previewed now s values exclude db ≡ (ok p, mid)
    → (preview db.reservations now s values exclude ≡ ok p) × (mid ≡ db)
unfolding previewed
previewed_ok now s values exclude db mid p e =
    computed_ok (preview db.reservations now s values exclude) db mid p e

pub refuse_blocked_ok :
    (s : SatnetRow) (operational : Bool) (fs : List PathFinding) (db mid : Db) (u : Unit {0})
    → refuse_blocked s operational fs db ≡ (ok u, mid)
    → (operational ≡ true → fs ≡ []) × (mid ≡ db)
unfolding refuse_blocked
refuse_blocked_ok s operational [] db mid u e = (λ t. refl, cc)
refuse_blocked_ok s true (f ∷ fs) db mid u e = cc
refuse_blocked_ok s false (f ∷ fs) db mid u e = (λ t. cc, cc)
