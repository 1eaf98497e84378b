-- ===== src/Approvals/Denial.antt =====
-- The scope check of satnet_paths/lifecycle.py under the transaction of approvals/services.py, and
-- its audit event.
use vsat_frequency_managemen.Accounts.{Actor, is_in_scope, require}
use vsat_frequency_managemen.Approvals.{Settings, check_separate_approver, is_author, outcome_for}
use vsat_frequency_managemen.Database.{Capability, Db, Decision, SatnetPath}
use vsat_frequency_managemen.Prelude.{List, Option, arith, false, ok, refl, true, ℕ, ◌&&◌, ◌≡◌}

pub require_passes :
    (actor : Actor) (capability : Capability) (db : Db)
    → actor.is_authenticated ≡ true
    → actor.has_perm capability ≡ true
    → require actor capability db ≡ (ok tt, db)
unfolding require is_in_scope
require_passes actor capability db signed perm = ground arith

module _ (settings : Settings) (actor : Actor) (path : SatnetPath) (decision : Decision)
    (comment reason : List ℕ) (expected : Option ℕ) (db : Db) where
  pub separate_passes :
      settings.require_separate_approver && is_author actor path.created_by ≡ false
      → check_separate_approver settings actor path (outcome_for decision).0 db ≡ (ok tt, db)
  unfolding check_separate_approver
  separate_passes h = rw h refl
