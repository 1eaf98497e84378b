-- ===== src/Paths/Creation/Allowed.antt =====
-- When `create` of satnet_paths/services.py returns.
use vsat_frequency_managemen.Accounts.{Actor, may_act_on, require}
use vsat_frequency_managemen.Database.{Db, SatnetPath, Status, manage_paths}
use vsat_frequency_managemen.Database.Action.{◌>>=◌}
use vsat_frequency_managemen.Database.Calls.{bind_ok}
use vsat_frequency_managemen.Paths.Creation.{
  create, create_row, identity_of, is_operational, previewed, refuse_blocked, require_grants,
}
use vsat_frequency_managemen.Paths.Creation.Created.{IsCreated, create_row_ok}
use vsat_frequency_managemen.Paths.Creation.Laws.{
  previewed_ok, refuse_blocked_ok, require_grants_ok,
}
use vsat_frequency_managemen.Paths.Lifecycle.Effects.{require_ok}
use vsat_frequency_managemen.Paths.Preview.{PathValues, Proposal, SatnetRow}
use vsat_frequency_managemen.Paths.Proposals.{preview}
use vsat_frequency_managemen.Paths.Proposals.Clear.{IsUnblocked, preview-IsJudged}
use vsat_frequency_managemen.Prelude.{Bool, List, Option, none, ok, subst, true, ℕ, ◌∙◌, ◌≡◌}

-- What a call of `create` that returned `path` has established.
pub record IsGranted (retains : Bool) (now : ℕ) (fresh : ℕ × ℕ) (actor : Actor) (s : SatnetRow)
    (values : PathValues) (status : Status) (reason : List ℕ) (path_id revision_group : Option ℕ)
    (db : Db) (path : SatnetPath) (db' : Db) : Type 0 where
  pub permitted : actor.has_perm manage_paths ≡ true
  pub in_scope : may_act_on actor (s.network).beam_id s.hub_id ≡ true
  pub proposal : Proposal
  pub proposed : preview db.reservations now s values none ≡ ok proposal
  pub unblocked :
      is_operational status ≡ true → IsUnblocked db.reservations now s values none proposal
  pub created :
      IsCreated retains actor s values status proposal reason
        (identity_of fresh path_id revision_group none)
        db
        path
        db'

pub create_ok :
    (retains : Bool) (now : ℕ) (fresh : ℕ × ℕ) (actor : Actor) (s : SatnetRow) (values : PathValues)
    (status : Status) (reason : List ℕ) (path_id revision_group : Option ℕ) (db db' : Db)
    (path : SatnetPath)
    → create retains now fresh actor s values status reason path_id revision_group db
      ≡ (ok path, db')
    → IsGranted retains now fresh actor s values status reason path_id revision_group db path db'
unfolding create
create_ok retains now fresh actor s values status reason path_id revision_group db db' path e =
    let i = identity_of fresh path_id revision_group none in
    let tail4 =
      λ (p : Proposal) (_ : Unit {0}). create_row retains actor s values status p reason i in
    let tail3 = λ (p : Proposal). refuse_blocked s (is_operational status) p.findings >>= tail4 p in
    let tail2 = λ (_ : Unit {0}). previewed now s values none >>= tail3 in
    let tail1 = λ (_ : Unit {0}). require_grants actor s >>= tail2 in
    let (u1, d1, e1, r1) = bind_ok (require actor manage_paths) tail1 db path db' e in
    let (u2, d2, e2, r2) = bind_ok (require_grants actor s) tail2 d1 path db' r1 in
    let (p, d3, e3, r3) = bind_ok (previewed now s values none) tail3 d2 path db' r2 in
    let (u4, d4, e4, r4) =
      bind_ok (refuse_blocked s (is_operational status) p.findings) (tail4 p) d3 path db' r3 in
    let (_, permitted, s1) = require_ok actor manage_paths db d1 u1 e1 in
    let (in_scope, s2) = require_grants_ok actor s d1 d2 u2 e2 in
    let (proposed, s3) = previewed_ok now s values none d2 d3 p e3 in
    let (clear, s4) = refuse_blocked_ok s (is_operational status) p.findings d3 d4 u4 e4 in
    let at_d2 : d2 ≡ db = s2 ∙ s1 in
    let at_d4 : d4 ≡ db = s4 ∙ s3 ∙ at_d2 in
    let proposed_db : preview db.reservations now s values none ≡ ok p =
      subst (λ (d : Db). preview d.reservations now s values none ≡ ok p) at_d2 proposed in
    record {
      permitted = permitted;
      in_scope = in_scope;
      proposal = p;
      proposed = proposed_db;
      unblocked = λ o.
          (preview-IsJudged db.reservations now s values none p proposed_db).verdict.0 (clear o);
      created = create_row_ok retains actor s values status p reason i db db' path (
          subst (λ d. create_row retains actor s values status p reason i d ≡ (ok path, db')) at_d4
            r4);
    }
