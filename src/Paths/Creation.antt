-- ===== src/Paths/Creation.antt =====
-- Saving an allocation (satnet_paths/services.py: `create`, `create_revision`, `rewrite`, `_create`)
-- and `edit` of satnet_paths/lifecycle.py. `fresh` is the identifier that `uuid.uuid4()` answers, for a
-- path and for a revision group. `full_clean` leaves
-- out `supersedes`, and with it `ck_path_revision`, which the database checks when the row is saved.
pub mod Laws
pub mod Created
pub mod Allowed
use vsat_frequency_managemen.Accounts.{Actor, may_act_on, record_denial, require}
use vsat_frequency_managemen.Database.{
  SatnetPath, Status, draft, manage_paths, path_created, path_refused,
}
use vsat_frequency_managemen.Database.Action.{
  Action, atomic, checked, computed, integrity_error, path_blocked, pure, raise, read, record_event,
  refuse_if, validation_error, ◌>>=◌, ◌>>◌,
}
use vsat_frequency_managemen.Paths.Derived.{
  DerivedFields, checks_hold, derived_fields, fields_fit, fits_positive, revision_fits,
}
use vsat_frequency_managemen.Paths.Lifecycle.{occupancies_of, path_claim}
use vsat_frequency_managemen.Paths.Preview.{
  PathFinding, PathValues, Proposal, SatnetRow, has_findings, sides_for,
}
use vsat_frequency_managemen.Paths.Proposals.{preview}
use vsat_frequency_managemen.Prelude.{
  Bool, List, Option, [], any, false, if◌then◌else◌, length, none, not, ok, some, true, ℕ, ◌&&◌,
  ◌++◌, ◌+◌, ◌==◌, ◌||◌, ◌∷◌,
}
use vsat_frequency_managemen.Spectrum.Services.{reserve}

-- `path.is_operational`
abbrev pub is_operational : Status → Bool
is_operational draft = false
is_operational _ = true

-- `_acting_user`
abbrev pub acting_user : Actor → Option ℕ
acting_user actor = if actor.is_user then some actor.pk else none

-- The identifiers and the revision columns of a new row.
pub record Identity : Type 0 where
  pub id : ℕ
  pub group : ℕ
  pub number : ℕ
  pub supersedes : Option ℕ

abbrev pub id_or : Option ℕ → ℕ → ℕ
id_or none fresh = fresh
id_or (some id) fresh = id

abbrev pub identity_of : ℕ × ℕ → (path_id revision_group : Option ℕ) → Option SatnetPath → Identity
identity_of fresh path_id revision_group none = record {
  id = id_or path_id fresh.0;
  group = id_or revision_group fresh.1;
  number = 1;
  supersedes = none;
}
identity_of fresh path_id revision_group (some predecessor) = record {
  id = id_or path_id fresh.0;
  group = predecessor.revision_group;
  number = predecessor.revision_number + 1;
  supersedes = some predecessor.pk;
}

-- `SatnetPath(...)`
abbrev pub new_path : Identity → Actor → SatnetRow → Status → List ℕ → DerivedFields → SatnetPath
new_path i actor s status reason f = record {
  pk = i.id;
  satnet_id = s.satnet_id;
  code = f.code;
  beam_id = (s.beam).pk;
  hub_id = s.hub_id;
  direction = f.direction;
  status = status;
  record_version = 1;
  valid_from = f.valid_from;
  valid_until = f.valid_until;
  change_reason = reason;
  revision_group = i.group;
  revision_number = i.number;
  supersedes = i.supersedes;
  created_by = acting_user actor;
  canonical = f.canonical;
  translated = f.translated;
}

-- Equality of texts.
abbrev pub text_eq : List ℕ → List ℕ → Bool
text_eq [] [] = true
text_eq [] (d ∷ ds) = false
text_eq (c ∷ cs) [] = false
text_eq (c ∷ cs) (d ∷ ds) = c == d && text_eq cs ds

-- `uq_path_satnet_code_revision`
abbrev pub same_code : SatnetPath → SatnetPath → Bool
same_code path other =
    other.satnet_id == path.satnet_id
    && text_eq other.code path.code
    && other.revision_number == path.revision_number

-- `uq_path_revision`
abbrev pub same_revision : SatnetPath → SatnetPath → Bool
same_revision path other =
    other.revision_group == path.revision_group && other.revision_number == path.revision_number

-- Another row with this identifier, this code and revision in the Satnet, or this revision of the
-- group.
abbrev pub takes_place_of : SatnetPath → SatnetPath → Bool
takes_place_of path other = other.pk == path.pk || same_code path other || same_revision path other

-- `path.full_clean(...)` of a row that is not stored yet.
unfoldable pub full_clean : DerivedFields → SatnetPath → Action (Unit {0})
unfolding fields_fit checks_hold
full_clean f path = do
  refuse_if (not (fields_fit f && fits_positive path.revision_number)) validation_error
  refuse_if (not (checks_hold f)) validation_error
  taken ← read (λ db. any (takes_place_of path) db.paths)
  refuse_if taken validation_error

abbrev pub append_path : SatnetPath → Action (Unit {0})
append_path path db = (ok tt, record db { paths = db.paths ++ path ∷ [] })

-- `path.save()` of a new row; of the constraints, `full_clean` left out `ck_path_revision`.
unfoldable pub insert_path : SatnetPath → Action (Unit {0})
insert_path path = do
  refuse_if (not (revision_fits path.revision_number path.supersedes)) integrity_error
  append_path path

-- `if path.is_operational: spectrum_services.reserve(...)`
unfoldable pub reserve_if_operational : Bool → SatnetPath → Action (Unit {0})
unfolding reserve
reserve_if_operational suspended_retains path =
    if is_operational path.status
    then reserve (path_claim path suspended_retains) (occupancies_of path)
    else pure tt

-- `_sides_for` and `_derived_fields`
unfoldable pub fields_of : PathValues → Proposal → Action DerivedFields
unfolding sides_for derived_fields
fields_of values proposal = do
  sides ← computed (sides_for (proposal.config) ((proposal.config).payload_path) proposal.placement)
  checked (derived_fields values proposal sides.0 sides.1)

-- `_create`
unfoldable pub create_row :
    (suspended_retains : Bool)
    → Actor
    → SatnetRow
    → PathValues
    → Status
    → Proposal
    → (reason : List ℕ) → Identity
    → Action SatnetPath
unfolding fields_of full_clean insert_path reserve_if_operational
create_row suspended_retains actor s values status proposal reason i = atomic (do
  f ← fields_of values proposal
  full_clean f (new_path i actor s status reason f)
  insert_path (new_path i actor s status reason f)
  reserve_if_operational suspended_retains (new_path i actor s status reason f)
  record_event (path_created i.id)
  pure (new_path i actor s status reason f))

abbrev pub count_findings : List PathFinding → ℕ
count_findings findings = length findings

-- The refusal of an operational path with findings, which is recorded.
unfoldable pub refuse_blocked : SatnetRow → Bool → List PathFinding → Action (Unit {0})
refuse_blocked s operational findings =
    if has_findings findings && operational
    then (do
      record_event (path_refused ((s.beam).pk) (count_findings findings))
      raise path_blocked)
    else pure tt

-- `if not allowed: ...` of `create`
unfoldable pub require_grants : Actor → SatnetRow → Action (Unit {0})
unfolding may_act_on
require_grants actor s =
    if may_act_on actor ((s.network).beam_id) s.hub_id
    then pure tt
    else (do record_denial manage_paths; raise path_blocked)

unfoldable pub previewed : ℕ → SatnetRow → PathValues → Option ℕ → Action Proposal
unfolding preview
previewed now s values exclude db = computed (preview db.reservations now s values exclude) db

-- `create`; `satnet_in_scope` answers as `satnet_path_in_scope` does.
unfoldable pub create :
    (suspended_retains : Bool) (now : ℕ) (fresh : ℕ × ℕ)
    → Actor
    → SatnetRow
    → PathValues
    → Status
    → (reason : List ℕ) → (path_id revision_group : Option ℕ) → Action SatnetPath
unfolding require require_grants previewed refuse_blocked create_row
create suspended_retains now fresh actor s values status reason path_id revision_group = do
  require actor manage_paths
  require_grants actor s
  proposal ← previewed now s values none
  refuse_blocked s (is_operational status) proposal.findings
  create_row suspended_retains actor s values status proposal reason
      (identity_of fresh path_id revision_group none)

-- `create_revision`
unfoldable pub create_revision :
    (suspended_retains : Bool) (now : ℕ) (fresh : ℕ × ℕ)
    → Actor
    → SatnetRow
    → (predecessor : SatnetPath) → PathValues
    → Status
    → (reason : List ℕ) → Action SatnetPath
unfolding previewed create_row
create_revision suspended_retains now fresh actor s predecessor values status reason = do
  proposal ← previewed now s values (some predecessor.pk)
  refuse_if (has_findings proposal.findings) path_blocked
  create_row suspended_retains actor s values status proposal reason
      (identity_of fresh none none (some predecessor))
