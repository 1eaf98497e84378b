-- ===== src/Paths/Lifecycle/Effects.antt =====
-- Calls of `transition` of satnet_paths/lifecycle.py that returned, and calls that were refused.
use vsat_frequency_managemen.Accounts.{Actor, may_act_on, require}
use vsat_frequency_managemen.Database.{Capability, Db, SatnetPath, Status}
use vsat_frequency_managemen.Database.Action.{
  checked, refuse_if, stale_record, transition_refused, ◌>>◌,
}
use vsat_frequency_managemen.Database.Calls.{
  FailsCleanly, FailsCleanly-atomic, FailsCleanly-bind, IsQuiet, IsQuiet-refuse_if, SameRows,
  bind_ok, refuse_if_ok,
}
use vsat_frequency_managemen.Paths.Lifecycle.{
  Move, Transition, apply_move, available_from, check_version, find, is_approval, move_eq,
  or_illegal, require_scope, transition, version_matches,
}
use vsat_frequency_managemen.Prelude.{
  Bool, In, List, Option, arith, false, first, none, not, ok, refl, some, true, ℕ, ◌&&◌, ◌∙◌, ◌≡◌,
}
use vsat_frequency_managemen.Prelude.Table.{first_found}

find_ok :
    (s : Status) (a : Move) (db mid : Db) (m : Transition)
    → find s a db ≡ (ok m, mid)
    → In m (available_from s) × (move_eq m.action a ≡ true) × (mid ≡ db)
unfolding find
find_ok s a db mid m e = split (first (λ t. move_eq t.action a) (available_from s)) refl e
  where
    split :
        (o : Option Transition)
        → first (λ t. move_eq t.action a) (available_from s) ≡ o
        → or_illegal o db ≡ (ok m, mid)
        → In m (available_from s) × (move_eq m.action a ≡ true) × (mid ≡ db)
    split none p q = cc
    split (some t) p q =
        let tm : t ≡ m = cc in
        let (i, same) = first_found (λ t. move_eq t.action a) (available_from s) t p in
        (rw (← tm) i, rw (← tm) same, cc)

IsQuiet-find : (s : Status) (a : Move) → IsQuiet (find s a)
unfolding find
IsQuiet-find s a = record {
  quiet = λ db. split db (first (λ t. move_eq t.action a) (available_from s));
}
  where
    split : (db : Db) (o : Option Transition) → SameRows db (or_illegal o db).1
    split db none = (refl, refl, refl)
    split db (some t) = (refl, refl, refl)

pub require_ok :
    (actor : Actor) (c : Capability) (db mid : Db) (u : Unit {0})
    → require actor c db ≡ (ok u, mid)
    → (actor.is_authenticated ≡ true) × (actor.has_perm c ≡ true) × (mid ≡ db)
unfolding require
require_ok actor c db mid u e = ground arith

pub IsQuiet-require : (actor : Actor) (c : Capability) → IsQuiet (require actor c)
unfolding require
IsQuiet-require actor c = record { quiet = λ db. ground arith }

pub require_scope_ok :
    (actor : Actor) (path : SatnetPath) (c : Capability) (db mid : Db) (u : Unit {0})
    → require_scope actor path c db ≡ (ok u, mid)
    → (may_act_on actor path.beam_id path.hub_id ≡ true) × (mid ≡ db)
unfolding require_scope
require_scope_ok actor path c db mid u e = ground arith

pub IsQuiet-require_scope :
    (actor : Actor) (path : SatnetPath) (c : Capability) → IsQuiet (require_scope actor path c)
unfolding require_scope
IsQuiet-require_scope actor path c = record { quiet = λ db. ground arith }

check_version_ok :
    (path : SatnetPath) (expected : Option ℕ) (db mid : Db) (u : Unit {0})
    → check_version path expected db ≡ (ok u, mid)
    → (version_matches expected path.record_version ≡ true) × (mid ≡ db)
unfolding check_version
check_version_ok path expected db mid u e = ground arith

IsQuiet-check_version :
    (path : SatnetPath) (expected : Option ℕ) → IsQuiet (check_version path expected)
unfolding check_version
IsQuiet-check_version path expected = IsQuiet-refuse_if _ stale_record

FailsCleanly-apply_move :
    (retains : Bool) (path : SatnetPath) (m : Transition) (reason : List ℕ)
    → FailsCleanly (apply_move retains path m reason)
unfolding apply_move
FailsCleanly-apply_move retains path m reason = FailsCleanly-atomic _

-- A transition that is refused, for whatever reason, has changed no path, no reservation and no
-- decision.
pub FailsCleanly-transition :
    (retains : Bool) (actor : Actor) (path : SatnetPath) (action : Move) (reason : List ℕ)
    → (expected : Option ℕ) (on_behalf : Bool)
    → FailsCleanly (transition retains actor path action reason expected on_behalf)
unfolding transition
FailsCleanly-transition retains actor path action reason expected on_behalf =
    FailsCleanly-bind _ _ (IsQuiet-find path.status action) λ m.
      FailsCleanly-bind _ _ (IsQuiet-require actor m.capability) λ _.
        FailsCleanly-bind _ _ (IsQuiet-require_scope actor path m.capability) λ _.
          FailsCleanly-bind _ _ (IsQuiet-refuse_if _ transition_refused) λ _.
            FailsCleanly-bind _ _ (IsQuiet-check_version path expected)
              λ _. FailsCleanly-apply_move retains path m reason

-- What a transition that returned `path'` has established.
pub record Moved (retains : Bool) (actor : Actor) (path : SatnetPath) (action : Move)
    (reason : List ℕ) (expected : Option ℕ) (on_behalf : Bool) (db : Db) (path' : SatnetPath)
    (db' : Db) : Type 0 where
  pub move : Transition
  pub legal : In move (available_from path.status)
  pub named : move_eq move.action action ≡ true
  pub permitted : actor.has_perm move.capability ≡ true
  pub in_scope : may_act_on actor path.beam_id path.hub_id ≡ true
  pub decided : is_approval move && not on_behalf ≡ false
  pub fresh : version_matches expected path.record_version ≡ true
  pub applied : apply_move retains path move reason db ≡ (ok path', db')

-- A transition that returned was allowed: the move is an edge of the graph from the path's status, the
-- actor holds its capability and is in scope, an approval or a rejection was asked for by the approvals
-- service, and the version was the expected one. What it did is what `_apply` does for that edge.
pub transition_ok :
    (retains : Bool) (actor : Actor) (path : SatnetPath) (action : Move) (reason : List ℕ)
    → (expected : Option ℕ) (on_behalf : Bool) (db db' : Db) (path' : SatnetPath)
    → transition retains actor path action reason expected on_behalf db ≡ (ok path', db')
    → Moved retains actor path action reason expected on_behalf db path' db'
unfolding transition
transition_ok retains actor path action reason expected on_behalf db db' path' e =
    let tail4 =
      λ (m : Transition). check_version path expected >> apply_move retains path m reason in
    let tail3 = λ (m : Transition).
      refuse_if (is_approval m && not on_behalf) transition_refused >> tail4 m in
    let tail2 = λ (m : Transition). require_scope actor path m.capability >> tail3 m in
    let tail1 = λ (m : Transition). require actor m.capability >> tail2 m in
    let (m, d1, found, e1) = bind_ok (find path.status action) tail1 db path' db' e in
    let (u2, d2, required, e2) =
      bind_ok (require actor m.capability) (λ _. tail2 m) d1 path' db' e1 in
    let (u3, d3, scoped, e3) =
      bind_ok (require_scope actor path m.capability) (λ _. tail3 m) d2 path' db' e2 in
    let (u4, d4, passed, e4) =
      bind_ok (refuse_if (is_approval m && not on_behalf) transition_refused) (λ _. tail4 m) d3
        path' db' e3 in
    let (u5, d5, checked, e5) =
      bind_ok (check_version path expected) (λ _. apply_move retains path m reason) d4 path' db'
        e4 in
    let (i, named, s1) = find_ok path.status action db d1 m found in
    let (_, perm, s2) = require_ok actor m.capability d1 d2 u2 required in
    let (scope, s3) = require_scope_ok actor path m.capability d2 d3 u3 scoped in
    let (decided, s4) = refuse_if_ok _ transition_refused d3 d4 u4 passed in
    let (fresh, s5) = check_version_ok path expected d4 d5 u5 checked in
    let same : d5 ≡ db = s5 ∙ s4 ∙ s3 ∙ s2 ∙ s1 in
    record {
      move = m;
      legal = i;
      named = named;
      permitted = perm;
      in_scope = scope;
      decided = decided;
      fresh = fresh;
      applied = rw same at e5;
    }
