-- ===== src/Paths/Editing.antt =====
-- Changing an allocation in place (satnet_paths/services.py, `rewrite`; satnet_paths/lifecycle.py,
-- `edit`).
pub mod Laws
use vsat_frequency_managemen.Accounts.{Actor, require}
use vsat_frequency_managemen.Database.{
  SatnetPath, Status, draft, path_stale, path_updated, plan_path, planned,
}
use vsat_frequency_managemen.Database.Action.{
  Action, atomic, integrity_error, not_editable, path_blocked, pure, raise, read, record_event,
  refuse_if, row_missing, stale_record, validation_error, ◌>>=◌, ◌>>◌,
}
use vsat_frequency_managemen.Paths.Creation.{
  fields_of, is_operational, previewed, reserve_if_operational, takes_place_of,
}
use vsat_frequency_managemen.Paths.Derived.{
  DerivedFields, checks_hold, fields_fit, fits_positive, revision_fits,
}
use vsat_frequency_managemen.Paths.Lifecycle.{or_text, require_scope, update_path}
use vsat_frequency_managemen.Paths.Preview.{PathValues, Proposal, SatnetRow, has_findings}
use vsat_frequency_managemen.Prelude.{
  Bool, List, Option, any, false, first, if◌then◌else◌, none, not, ok, some, true, ℕ, ◌&&◌, ◌+◌,
  ◌==◌,
}
use vsat_frequency_managemen.Spectrum.Services.{release}

abbrev pub status_or : Option Status → Status → Status
status_or none status = status
status_or (some status) old = status

-- The path as `rewrite` changes it.
abbrev pub rewritten_path : SatnetPath → Option Status → List ℕ → DerivedFields → SatnetPath
rewritten_path path status reason f = record path {
  code = f.code;
  direction = f.direction;
  valid_from = f.valid_from;
  valid_until = f.valid_until;
  status = status_or status path.status;
  change_reason = or_text reason path.change_reason;
  record_version = path.record_version + 1;
  canonical = f.canonical;
  translated = f.translated;
}

-- `path.full_clean(...)` of a stored row: its identifier and its place in the group are its own.
unfoldable pub full_clean_stored : DerivedFields → SatnetPath → Action (Unit {0})
unfolding fields_fit checks_hold
full_clean_stored f path = do
  refuse_if
      (not
        (fields_fit f && fits_positive path.revision_number && fits_positive path.record_version))
      validation_error
  refuse_if (not (checks_hold f)) validation_error
  taken ←
      read (λ db. any (λ other. not (other.pk == path.pk) && takes_place_of path other) db.paths)
  refuse_if taken validation_error

unfoldable overwrite_path : SatnetPath → Action (Unit {0})
unfolding update_path
overwrite_path path db = (ok tt, record db { paths = update_path path.pk (λ _. path) db.paths })

-- `path.save()` of a stored row.
unfoldable pub save_path : SatnetPath → Action (Unit {0})
unfolding overwrite_path
save_path path = do
  refuse_if (not (revision_fits path.revision_number path.supersedes)) integrity_error
  overwrite_path path

-- What `rewrite` does after its preview.
unfoldable pub replace_row :
    (suspended_retains : Bool)
    → SatnetPath
    → PathValues
    → Option Status
    → Proposal
    → List ℕ
    → Action SatnetPath
unfolding release fields_of full_clean_stored save_path reserve_if_operational
replace_row suspended_retains path values status proposal reason = do
  release path.pk
  f ← fields_of values proposal
  full_clean_stored f (rewritten_path path status reason f)
  save_path (rewritten_path path status reason f)
  reserve_if_operational suspended_retains (rewritten_path path status reason f)
  record_event (path_updated path.pk (path.record_version + 1))
  pure (rewritten_path path status reason f)

unfoldable pub rewrite :
    (suspended_retains : Bool) (now : ℕ)
    → SatnetRow
    → SatnetPath
    → PathValues
    → Option Status
    → (reason : List ℕ) → Action SatnetPath
unfolding previewed replace_row
rewrite suspended_retains now s path values status reason = atomic (do
  proposal ← previewed now s values (some path.pk)
  refuse_if (has_findings proposal.findings && is_operational path.status) path_blocked
  replace_row suspended_retains path values status proposal reason)

-- `EDITABLE_STATUSES`
abbrev pub is_editable : Status → Bool
is_editable draft = true
is_editable planned = true
is_editable _ = false

abbrev pub or_row_missing : Option SatnetPath → Action SatnetPath
or_row_missing none = raise row_missing
or_row_missing (some path) = pure path

-- `SatnetPath.objects.get(pk=path.pk)`
unfoldable pub stored_row : ℕ → Action SatnetPath
stored_row pk db = or_row_missing (first (λ p. p.pk == pk) db.paths) db

-- `_check_edit_version`
unfoldable pub check_edit_version : SatnetPath → ℕ → Action (Unit {0})
unfolding stored_row
check_edit_version path expected_version = do
  stored ← stored_row path.pk
  if expected_version == stored.record_version
      then pure tt
      else (do record_event (path_stale path.pk); raise stale_record)

unfoldable pub edit :
    (suspended_retains : Bool) (now : ℕ)
    → Actor
    → SatnetRow
    → SatnetPath
    → PathValues
    → Option Status
    → (expected_version : ℕ) (reason : List ℕ) → Action SatnetPath
unfolding require require_scope check_edit_version rewrite
edit suspended_retains now actor s path values status expected_version reason = do
  require actor plan_path
  require_scope actor path plan_path
  refuse_if (not (is_editable path.status)) not_editable
  check_edit_version path expected_version
  rewrite suspended_retains now s path values status reason
