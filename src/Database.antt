-- ===== src/Database.antt =====
-- The rows that the services read and write: spectrum/models.py, satnet_paths/models.py,
-- approvals/models.py, beams/models.py and the constants beside them, with the audit trail. A primary
-- key (a UUID) and a `datetime` are only compared, so each is a number; a text is its code points.
pub mod Action
pub mod Calls
pub mod Legs
pub mod Steps
use vsat_frequency_managemen.Calculations.Ranges.{FrequencyRange}
use vsat_frequency_managemen.Prelude.{Bool, List, Option, false, true, ℕ}
use vsat_frequency_managemen.Prelude.Int.{ℤ}

-- `Direction` and `SpectrumLeg`.
pub data Direction : Type 0 where
  fwd rtn : Direction

pub data Leg : Type 0 where
  hub_uplink remote_downlink remote_uplink hub_downlink : Leg

abbrev pub leg_eq : Leg → Leg → Bool
leg_eq hub_uplink hub_uplink = true
leg_eq remote_downlink remote_downlink = true
leg_eq remote_uplink remote_uplink = true
leg_eq hub_downlink hub_downlink = true
leg_eq _ _ = false

-- `ReservationStatus`, which is `PathStatus` too.
pub data Status : Type 0 where
  draft planned pending_approval on_air suspended cancelled retired import_review : Status

pub data ReservationKind : Type 0 where
  satnet_path fixed_reserve : ReservationKind

-- What a reservation reads of the `BeamSpectrumAssignment` that it sits inside.
pub record Assignment : Type 0 where
  pub pk : ℕ
  pub rf_start_hz : ℤ
  pub rf_end_hz : ℤ
  pub is_active : Bool
  pub effective_from : ℕ
  pub effective_until : Option ℕ

-- `SpectrumReservation`. `none` stands for a blank direction or status.
pub record Reservation : Type 0 where
  pub spectrum_resource_id : ℕ
  pub assignment_pk : ℕ
  pub assignment_start_hz : ℤ
  pub assignment_end_hz : ℤ
  pub leg : Leg
  pub polarization : ℕ
  pub occupied_start_hz : ℤ
  pub occupied_end_hz : ℤ
  pub allocated_start_hz : ℤ
  pub allocated_end_hz : ℤ
  pub valid_from : ℕ
  pub valid_until : Option ℕ
  pub kind : ReservationKind
  pub satnet_path_id : Option ℕ
  pub direction : Option Direction
  pub status : Option Status
  pub reserves_spectrum : Bool

-- One leg of a stored allocation: the columns `canonical_*` or `translated_*`, and the resources
-- that the leg is mapped to (`config.spectrum_resources` of that leg).
pub record Side : Type 0 where
  pub assignment : Assignment
  pub leg : Leg
  pub polarization : ℕ
  pub occupied : FrequencyRange
  pub allocated : FrequencyRange
  pub resource_ids : List ℕ

-- The columns of `SatnetPath` that the services read or write.
pub record SatnetPath : Type 0 where
  pub pk : ℕ
  pub satnet_id : ℕ
  pub code : List ℕ
  pub beam_id : ℕ
  pub hub_id : ℕ
  pub direction : Direction
  pub status : Status
  pub record_version : ℕ
  pub valid_from : ℕ
  pub valid_until : Option ℕ
  pub change_reason : List ℕ
  pub revision_group : ℕ
  pub revision_number : ℕ
  pub supersedes : Option ℕ
  pub created_by : Option ℕ
  pub canonical : Side
  pub translated : Side

pub data Decision : Type 0 where
  approved rejected : Decision

-- `ApprovalDecision`
pub record ApprovalDecision : Type 0 where
  pub path_pk : ℕ
  pub decision : Decision
  pub decided_by : ℕ
  pub from_status : Status
  pub to_status : Status

-- `satnet_paths.constants`: one capability for each transition.
pub data Capability : Type 0 where
  plan_path submit_path approve_path reject_path suspend_path retire_path cancel_path : Capability
  revise_path manage_paths : Capability

-- The audit events that the modelled services write, with the values that tell them apart.
pub data Event : Type 0 where
  permission_denied : Capability → Event
  spectrum_reserved : (path_id : Option ℕ) (rows : ℕ) → Event
  spectrum_restatused : (path_id rows : ℕ) → Status → Event
  spectrum_released : (path_id rows : ℕ) → Event
  path_transitioned : (path_id : ℕ) (before after : Status) (version : ℕ) → Event
  path_revised : (path_id successor_id : ℕ) → Event
  path_created : (path_id : ℕ) → Event
  path_updated : (path_id version : ℕ) → Event
  path_refused : (satnet_beam_id findings : ℕ) → Event
  path_stale : (path_id : ℕ) → Event
  approval_recorded : (path_id : ℕ) → Decision → Event
  approval_refused : (path_id : ℕ) → Event

pub record Db : Type 0 where
  pub paths : List SatnetPath
  pub reservations : List Reservation
  pub decisions : List ApprovalDecision
  pub audit : List Event
