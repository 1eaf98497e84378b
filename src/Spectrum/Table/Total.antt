-- ===== src/Spectrum/Table/Total.antt =====
-- When `set_status` of spectrum/services.py returns.
use vsat_frequency_managemen.Calculations.Periods.{runs_backwards}
use vsat_frequency_managemen.Database.{
  Reservation, ReservationKind, Status, cancelled, draft, fixed_reserve, import_review, on_air,
  pending_approval, planned, retired, satnet_path, suspended,
}
use vsat_frequency_managemen.Prelude.{
  All, All-map, All-split, Bool, Bool-cases, List, Option, [], append_assoc, arith, false, inl, inr,
  is_some, none, not, ok, refl, some, true, ℕ, ◌&&◌, ◌++◌, ◌∷◌, ◌≡◌,
}
use vsat_frequency_managemen.Prelude.Int.{leb_ℤ, ltb_ℤ}
use vsat_frequency_managemen.Prelude.Table.{All-replace, Pairs-middle, Pairs-replace, none-any}
use vsat_frequency_managemen.Spectrum.{
  admit, checks_pass, direction_fits, excludes, guarded, kind_fits, kind_fits_with,
  reserves_spectrum_of, status_pins,
}
use vsat_frequency_managemen.Spectrum.Table.{belongs_to, names, restatus_rows}
use vsat_frequency_managemen.Spectrum.Table.Exclusion.{Compatible, Compatible-sym, IsExclusive}

weaker :
    (held holds rest : Bool)
    → (holds ≡ true → held ≡ true)
    → (held && rest) ≡ false
    → (holds && rest) ≡ false
weaker held holds rest h e = ground arith

-- The row as `set_status` saves it.
abbrev with_status : Status → Bool → Reservation → Reservation
with_status status holds row = record row { status = some status; reserves_spectrum = holds }

still_Compatible :
    (status : Status) (holds : Bool) (row other : Reservation)
    → (holds ≡ true → row.reserves_spectrum ≡ true)
    → Compatible row other
    → Compatible (with_status status holds row) other
unfolding excludes
still_Compatible status holds row other h e = weaker row.reserves_spectrum holds _ h e

kind_still :
    (kind : ReservationKind) (pk : ℕ) (id : Option ℕ) (has_status has_direction : Bool)
    → names pk id ≡ true
    → kind_fits_with kind (is_some id) has_status has_direction ≡ true
    → kind_fits_with kind (is_some id) true has_direction ≡ true
kind_still satnet_path pk (some id) has_status has_direction h e = refl
kind_still fixed_reserve pk (some id) has_status has_direction h e = cc
kind_still kind pk none has_status has_direction h e = cc

swapped :
    (a b c d e f g k k' p p' l : Bool)
    → (a && (b && (c && (d && (e && (f && (g && (k && (p && l))))))))) ≡ true
    → (k ≡ true → k' ≡ true)
    → p' ≡ true
    → (a && (b && (c && (d && (e && (f && (g && (k' && (p' && l))))))))) ≡ true
swapped a b c d e f g k k' p p' l h hk hp = ground arith

still_passes :
    (pk : ℕ) (status : Status) (holds : Bool) (row : Reservation)
    → belongs_to pk row ≡ true
    → status_pins (some status) holds ≡ true
    → checks_pass row ≡ true
    → checks_pass (with_status status holds row) ≡ true
unfolding checks_pass
still_passes pk status holds row mine pins h =
    swapped (ltb_ℤ row.allocated_start_hz row.allocated_end_hz)
      (ltb_ℤ row.occupied_start_hz row.occupied_end_hz)
      (leb_ℤ row.allocated_start_hz row.occupied_start_hz)
      (leb_ℤ row.occupied_end_hz row.allocated_end_hz)
      (leb_ℤ row.assignment_start_hz row.allocated_start_hz)
      (leb_ℤ row.allocated_end_hz row.assignment_end_hz)
      (not (runs_backwards row.valid_from row.valid_until)) (kind_fits row)
      (kind_fits (with_status status holds row)) (status_pins row.status row.reserves_spectrum)
      (status_pins (some status) holds) (direction_fits row.direction row.leg) h
      (kind_still row.kind pk row.satnet_path_id (is_some row.status) (is_some row.direction) mine)
      pins

admits :
    (row : Reservation) (others : List Reservation)
    → checks_pass row ≡ true
    → All (Compatible row) others
    → guarded (admit row others) ≡ ok tt
unfolding admit guarded
admits row others checked clear = rw (checked, none-any (excludes row) others clear) refl

-- A status that the setting and the CHECK agree on.
pub pins_agree :
    (status : Status) (retains : Bool)
    → status_pins (some status) (reserves_spectrum_of status retains) ≡ true
pins_agree draft retains = refl
pins_agree planned retains = refl
pins_agree pending_approval retains = refl
pins_agree on_air retains = refl
pins_agree suspended retains = refl
pins_agree cancelled retains = refl
pins_agree retired retains = refl
pins_agree import_review retains = refl

-- The new status does not switch on a row of the path that was off.
abbrev pub IsOnAlready : ℕ → Bool → Reservation → Type 0
IsOnAlready pk holds row = belongs_to pk row ≡ true → holds ≡ true → row.reserves_spectrum ≡ true

-- In a table without overlaps, `set_status` to any status returns, where each row of the path that is
-- to hold spectrum holds it already.
pub restatus_rows-total :
    (pk : ℕ) (status : Status) (retains : Bool) (done todo : List Reservation)
    → IsExclusive (done ++ todo)
    → All (IsOnAlready pk (reserves_spectrum_of status retains)) todo
    → (rows' : List Reservation) × (restatus_rows pk status
          (reserves_spectrum_of status retains)
          done
          todo
        ≡ ok rows')
unfolding restatus_rows
restatus_rows-total pk status retains done [] h on = (done, refl)
restatus_rows-total pk status retains done (row ∷ todo) h on =
    elim (Bool-cases (belongs_to pk row)) [
      | inr other ↦ rw other (
          restatus_rows-total pk status retains (done ++ row ∷ []) todo
            (rw (append_assoc done (row ∷ []) todo) h) on.1)
      | inl mine ↦
          let holds = reserves_spectrum_of status retains in
          let row' = with_status status holds row in
          let here = (All-split (λ x. checks_pass x ≡ true) done (row ∷ todo) h.checked).1 in
          let passes = still_passes pk status holds row mine (pins_agree status retains) here.0 in
          let clear : All (Compatible row') (done ++ todo) =
            All-map (λ other. still_Compatible status holds row other (on.0 mine)) (done ++ todo)
              (Pairs-middle Compatible Compatible-sym done row todo h.apart) in
          let next : IsExclusive ((done ++ row' ∷ []) ++ todo) =
            rw (append_assoc done (row' ∷ []) todo) (record {
              checked = All-replace (λ x. checks_pass x ≡ true) done row row' todo passes h.checked;
              apart = Pairs-replace Compatible Compatible-sym done row row' todo clear h.apart;
            }) in
          rw (mine, admits row' (done ++ todo) passes clear)
            (restatus_rows-total pk status retains (done ++ row' ∷ []) todo next on.1)
    ]
