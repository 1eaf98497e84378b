-- ===== src/Spectrum/Table/Exclusion.antt =====
-- The constraints of spectrum/models.py as a predicate of the whole table, under each service.
use vsat_frequency_managemen.Calculations.Periods.{TimePeriod, period_overlaps}
use vsat_frequency_managemen.Calculations.Ranges.{FrequencyRange, overlaps}
use vsat_frequency_managemen.Database.{Reservation, Side, Status}
use vsat_frequency_managemen.Prelude.{
  >>=-eq-ok, All, All-append, All-keep, Bool, Bool-cases, List, Pairs, [], any, append-nil,
  append_assoc, arith, err-ne-ok, false, inl, inr, ok, ok-injective, some, true, ℕ, ◌&&◌, ◌++◌,
  ◌==◌, ◌∙◌, ◌∷◌, ◌≡◌,
}
use vsat_frequency_managemen.Prelude.Table.{
  All-replace, Pairs-keep, Pairs-replace, Pairs-snoc, any-false,
}
use vsat_frequency_managemen.Spectrum.{
  active_period, admit, allocated_rf, checks_pass, excludes, guarded,
}
use vsat_frequency_managemen.Spectrum.Table.{
  Claim, belongs_to, check_entitlement, occupancy_row, restatus_rows, rows_without,
  write_occupancies, write_rows,
}

-- Every row passes the CHECKs, and no two rows exclude one another.
abbrev pub Compatible : Reservation → Reservation → Type 0
Compatible a b = excludes a b ≡ false

pub record IsExclusive (rows : List Reservation) : Type 0 where
  pub checked : All (λ row. checks_pass row ≡ true) rows
  pub apart : Pairs Compatible rows

-- The row that a statement admits passes the CHECKs and excludes no other.
admit_ok :
    (row : Reservation) (others : List Reservation)
    → guarded (admit row others) ≡ ok tt
    → (checks_pass row ≡ true) × All (Compatible row) others
unfolding admit guarded
admit_ok row others e = elim (Bool-cases (checks_pass row)) [
  | inr bad ↦ err-ne-ok (rw bad at e)
  | inl fine ↦ elim (Bool-cases (any (excludes row) others)) [
    | inl taken ↦ err-ne-ok (rw (fine, taken) at e)
    | inr free ↦ (fine, any-false (excludes row) others free)
  ]
]

period_overlaps_sym : (p q : TimePeriod) → period_overlaps p q ≡ period_overlaps q p
period_overlaps_sym p q = ground arith

range_overlaps_sym : (a b : FrequencyRange) → overlaps a b ≡ overlaps b a
range_overlaps_sym a b = ground arith

same_resource_sym : (a b : ℕ) → (a == b) ≡ (b == a)
same_resource_sym a b = ground arith

excludes_comm : (a b : Reservation) → excludes a b ≡ excludes b a
unfolding excludes
excludes_comm a b =
    rw
      (
        range_overlaps_sym (allocated_rf a) (allocated_rf b),
        period_overlaps_sym (active_period a) (active_period b),
        same_resource_sym a.spectrum_resource_id b.spectrum_resource_id,
      )
      (and_swap a.reserves_spectrum b.reserves_spectrum _)
  where
    and_swap : (x y z : Bool) → x && (y && z) ≡ y && (x && z)
    and_swap x y z = ground arith

pub Compatible-sym : (a b : Reservation) → Compatible a b → Compatible b a
Compatible-sym a b h = excludes_comm b a ∙ h

write_rows-IsExclusive :
    (claim : Claim) (occupancy : Side) (resource_ids : List ℕ) (rows rows' : List Reservation)
    → IsExclusive rows
    → write_rows claim occupancy resource_ids rows ≡ ok rows'
    → IsExclusive rows'
unfolding write_rows
write_rows-IsExclusive claim occupancy [] rows rows' h e = rw (← ok-injective e) h
write_rows-IsExclusive claim occupancy (r ∷ rs) rows rows' h e =
    let row = occupancy_row claim occupancy r in
    let (_, admitted, rest) = >>=-eq-ok (guarded (admit row rows)) _ e in
    let (checked, clear) = admit_ok row rows admitted in
    write_rows-IsExclusive claim occupancy rs (rows ++ row ∷ []) rows'
      (record {
        checked = All-append (λ x. checks_pass x ≡ true) rows (row ∷ []) h.checked (checked, tt);
        apart = Pairs-snoc Compatible Compatible-sym rows row clear h.apart;
      })
      rest

pub write_occupancies-IsExclusive :
    (claim : Claim) (occupancies : List Side) (rows rows' : List Reservation)
    → IsExclusive rows
    → write_occupancies claim occupancies rows ≡ ok rows'
    → IsExclusive rows'
unfolding write_occupancies
write_occupancies-IsExclusive claim [] rows rows' h e = rw (← ok-injective e) h
write_occupancies-IsExclusive claim (o ∷ os) rows rows' h e =
    let (_, _, after_check) =
      >>=-eq-ok (check_entitlement o claim.valid_from claim.valid_until) _ e in
    let (mid, wrote, rest) = >>=-eq-ok (write_rows claim o o.resource_ids rows) _ after_check in
    write_occupancies-IsExclusive claim os mid rows'
      (write_rows-IsExclusive claim o o.resource_ids rows mid h wrote) rest

pub restatus_rows-IsExclusive :
    (pk : ℕ) (status : Status) (holds : Bool) (done todo rows' : List Reservation)
    → IsExclusive (done ++ todo)
    → restatus_rows pk status holds done todo ≡ ok rows'
    → IsExclusive rows'
unfolding restatus_rows
restatus_rows-IsExclusive pk status holds done [] rows' h e =
    let same : done ++ [] ≡ rows' = append-nil done ∙ ok-injective e in rw same at h
restatus_rows-IsExclusive pk status holds done (row ∷ todo) rows' h e =
    elim (Bool-cases (belongs_to pk row)) [
      | inr other ↦
          restatus_rows-IsExclusive pk status holds (done ++ row ∷ []) todo rows'
            (rw (append_assoc done (row ∷ []) todo) h) (rw other at e)
      | inl mine ↦
          let row' = record row { status = some status; reserves_spectrum = holds } in
          let (_, admitted, rest) =
            >>=-eq-ok (guarded (admit row' (done ++ todo)))
              (λ _. restatus_rows pk status holds (done ++ row' ∷ []) todo) (rw mine at e) in
          let (checked, clear) = admit_ok row' (done ++ todo) admitted in
          restatus_rows-IsExclusive pk status holds (done ++ row' ∷ []) todo rows'
            (rw (append_assoc done (row' ∷ []) todo) (record {
              checked =
                  All-replace (λ x. checks_pass x ≡ true) done row row' todo checked h.checked;
              apart = Pairs-replace Compatible Compatible-sym done row row' todo clear h.apart;
            }))
            rest
    ]

pub rows_without-IsExclusive :
    (pk : ℕ) (rows : List Reservation) → IsExclusive rows → IsExclusive (rows_without pk rows)
rows_without-IsExclusive pk rows h = record {
  checked = All-keep (λ x. checks_pass x ≡ true) _ rows h.checked;
  apart = Pairs-keep Compatible _ rows h.apart;
}
