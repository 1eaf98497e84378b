-- ===== src/Paths/Lifecycle.antt =====
-- The transition graph of a Satnet Path, and what each move does to the spectrum
-- (satnet_paths/lifecycle.py). A path is loaded before the call: the value that a call is given is
-- the row, and `save(update_fields=...)` writes those columns of the row with its key.
pub mod Effects
pub mod Applied
pub mod InStep
pub mod Safety
pub mod Agreement
pub mod Unapproved
pub mod Returns
pub mod Stored
use vsat_frequency_managemen.Accounts.{Actor, allows, may_act_on, record_denial, require}
use vsat_frequency_managemen.Database.{
  Capability, SatnetPath, Side, Status, approve_path, cancel_path, cancelled, draft, on_air,
  path_transitioned, pending_approval, plan_path, planned, reject_path, retire_path, retired,
  submit_path, suspend_path, suspended,
}
use vsat_frequency_managemen.Database.Action.{
  Action, Failure, atomic, illegal_transition, outside_entitlement, pure, raise, record_event,
  refuse_if, spectrum_conflict, stale_record, transition_refused, translating, ◌>>=◌, ◌>>◌,
}
use vsat_frequency_managemen.Prelude.{
  Bool, List, Option, [], first, if◌then◌else◌, keep, none, not, ok, some, true, ℕ, ◌&&◌, ◌+◌, ◌==◌,
  ◌||◌, ◌∷◌,
}
use vsat_frequency_managemen.Spectrum.Services.{claim_of, release, reserve, set_status}
use vsat_frequency_managemen.Spectrum.Table.{Claim}

-- The names of the moves.
pub data Move : Type 0 where
  plan cancel submit approve reject suspend resume retire : Move

abbrev move_code : Move → ℕ
move_code plan = 0
move_code cancel = 1
move_code submit = 2
move_code approve = 3
move_code reject = 4
move_code suspend = 5
move_code resume = 6
move_code retire = 7

abbrev pub move_eq : Move → Move → Bool
move_eq a b = move_code a == move_code b

-- What happens to the occupancy rows.
pub data SpectrumEffect : Type 0 where
  reserves restatuses releases : SpectrumEffect

-- `Transition`, less its label.
pub record Transition : Type 0 where
  pub action : Move
  pub to_status : Status
  pub capability : Capability
  pub spectrum : SpectrumEffect

abbrev pub is_approval : Transition → Bool
is_approval move = move_eq move.action approve || move_eq move.action reject

abbrev edge : Move → Status → Capability → SpectrumEffect → Transition
edge action to_status capability spectrum = record {
  action = action;
  to_status = to_status;
  capability = capability;
  spectrum = spectrum;
}

-- `TRANSITIONS`, and `available_from`: a status that it does not list has no moves.
abbrev pub available_from : Status → List Transition
available_from draft =
    edge plan planned plan_path reserves ∷ edge cancel cancelled cancel_path releases ∷ []
available_from planned =
    edge submit pending_approval submit_path restatuses
    ∷ edge cancel cancelled cancel_path releases
    ∷ []
available_from pending_approval =
    edge approve on_air approve_path restatuses ∷ edge reject planned reject_path restatuses ∷ []
available_from on_air =
    edge suspend suspended suspend_path restatuses ∷ edge retire retired retire_path releases ∷ []
available_from suspended =
    edge resume on_air suspend_path restatuses ∷ edge retire retired retire_path releases ∷ []
available_from _ = []

abbrev or_illegal : Option Transition → Action Transition
or_illegal none = raise illegal_transition
or_illegal (some move) = pure move

-- `find`
unfoldable pub find : Status → Move → Action Transition
find status action = or_illegal (first (λ t. move_eq t.action action) (available_from status))

-- `offered_to`
unfoldable pub offered_to : Actor → SatnetPath → List Transition
offered_to actor path =
    if may_act_on actor path.beam_id path.hub_id
    then keep (λ t. allows actor t.capability) (available_from path.status)
    else []

-- `_require_scope`
unfoldable pub require_scope : Actor → SatnetPath → Capability → Action (Unit {0})
require_scope actor path capability =
    if may_act_on actor path.beam_id path.hub_id
    then pure tt
    else (do record_denial capability; raise transition_refused)

-- `expected_version is None or expected_version == path.record_version`
abbrev pub version_matches : Option ℕ → ℕ → Bool
version_matches none version = true
version_matches (some expected) version = expected == version

-- `_check_version`
unfoldable pub check_version : SatnetPath → Option ℕ → Action (Unit {0})
check_version path expected_version =
    refuse_if (not (version_matches expected_version path.record_version)) stale_record

-- `reason or path.change_reason`
abbrev pub or_text : List ℕ → List ℕ → List ℕ
or_text [] old = old
or_text (c ∷ reason) old = c ∷ reason

-- `UPDATE` of the columns that `f` changes, of the row with this key.
unfoldable pub update_path : ℕ → (SatnetPath → SatnetPath) → List SatnetPath → List SatnetPath
update_path pk f [] = []
update_path pk f (p ∷ paths) = (if p.pk == pk then f p else p) ∷ update_path pk f paths

-- `path.save(update_fields=["status", "change_reason", "record_version", ...])`
unfoldable pub save_status : SatnetPath → Action (Unit {0})
unfolding update_path
save_status path db = (
  ok tt,
  record db {
    paths =
        update_path path.pk
          (λ p. record p {
            status = path.status;
            change_reason = path.change_reason;
            record_version = path.record_version;
          })
          db.paths;
  },
)

-- `_occupancies_for`: the stored edges of the path.
abbrev pub occupancies_of : SatnetPath → List Side
occupancies_of path = path.canonical ∷ path.translated ∷ []

-- `except SpectrumConflictError`, `except OutsideEntitlementError`
abbrev pub as_refusal : Failure → Failure
as_refusal (spectrum_conflict was_deadlock) = transition_refused
as_refusal outside_entitlement = transition_refused
as_refusal e = e

-- What the path asks `reserve` for.
abbrev pub path_claim : SatnetPath → Bool → Claim
path_claim path suspended_retains =
    claim_of (some path.pk) path.direction path.status path.valid_from path.valid_until
      suspended_retains

-- The three branches of `_move_spectrum`, under SUSPENDED_RETAINS_SPECTRUM.
abbrev pub spectrum_effect : Bool → SpectrumEffect → SatnetPath → Action (Unit {0})
spectrum_effect suspended_retains reserves path =
    reserve (path_claim path suspended_retains) (occupancies_of path)
spectrum_effect suspended_retains restatuses path = set_status path.pk path.status suspended_retains
spectrum_effect suspended_retains releases path = release path.pk

-- `_move_spectrum`
unfoldable pub move_spectrum : Bool → SatnetPath → Transition → Action (Unit {0})
move_spectrum suspended_retains path move =
    translating as_refusal (spectrum_effect suspended_retains move.spectrum path)

-- The path as `_apply` changes it.
abbrev pub moved_path : SatnetPath → Transition → List ℕ → SatnetPath
moved_path path move reason = record path {
  status = move.to_status;
  change_reason = or_text reason path.change_reason;
  record_version = path.record_version + 1;
}

-- `_apply`
unfoldable pub apply_move : Bool → SatnetPath → Transition → List ℕ → Action SatnetPath
apply_move suspended_retains path move reason =
    let path' = moved_path path move reason in
    atomic (do
      save_status path'
      move_spectrum suspended_retains path' move
      record_event (path_transitioned path.pk path.status path'.status path'.record_version)
      pure path')

-- `transition`
unfoldable pub transition :
    (suspended_retains : Bool)
    → Actor
    → SatnetPath
    → Move
    → (reason : List ℕ) → (expected_version : Option ℕ) (on_behalf_of_approval : Bool)
    → Action SatnetPath
transition suspended_retains actor path action reason expected_version on_behalf_of_approval = do
  move ← find path.status action
  require actor move.capability
  require_scope actor path move.capability
  refuse_if (is_approval move && not on_behalf_of_approval) transition_refused
  check_version path expected_version
  apply_move suspended_retains path move reason
