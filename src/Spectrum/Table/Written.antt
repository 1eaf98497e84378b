-- ===== src/Spectrum/Table/Written.antt =====
-- Which rows the table holds after each service of spectrum/services.py.
use vsat_frequency_managemen.Database.{Reservation, Side, Status}
use vsat_frequency_managemen.Prelude.{
  >>=-eq-ok, Bool, Bool-cases, List, [], ap, append-nil, append_assoc, if◌then◌else◌, inl, inr, map,
  ok, ok-injective, some, sym, ℕ, ◌++◌, ◌∙◌, ◌∷◌, ◌≡◌,
}
use vsat_frequency_managemen.Spectrum.{admit, guarded}
use vsat_frequency_managemen.Spectrum.Table.{
  Claim, belongs_to, check_entitlement, occupancy_row, restatus_rows, write_occupancies, write_rows,
}

-- The rows that `reserve` writes, in order.
abbrev pub rows_for : Claim → Side → List ℕ → List Reservation
rows_for claim occupancy [] = []
rows_for claim occupancy (r ∷ rs) = occupancy_row claim occupancy r ∷ rows_for claim occupancy rs

abbrev pub claim_rows : Claim → List Side → List Reservation
claim_rows claim [] = []
claim_rows claim (o ∷ os) = rows_for claim o o.resource_ids ++ claim_rows claim os

write_rows_lem :
    (claim : Claim) (occupancy : Side) (resource_ids : List ℕ) (rows rows' : List Reservation)
    → write_rows claim occupancy resource_ids rows ≡ ok rows'
    → rows' ≡ rows ++ rows_for claim occupancy resource_ids
unfolding write_rows
write_rows_lem claim occupancy [] rows rows' e = sym (append-nil rows ∙ ok-injective e)
write_rows_lem claim occupancy (r ∷ rs) rows rows' e =
    let row = occupancy_row claim occupancy r in
    let (_, _, rest) = >>=-eq-ok (guarded (admit row rows)) _ e in
    write_rows_lem claim occupancy rs (rows ++ row ∷ []) rows' rest
    ∙ append_assoc rows (row ∷ []) (rows_for claim occupancy rs)

-- `reserve` adds one row for each resource of each leg, and changes no other row.
pub write_occupancies_lem :
    (claim : Claim) (occupancies : List Side) (rows rows' : List Reservation)
    → write_occupancies claim occupancies rows ≡ ok rows'
    → rows' ≡ rows ++ claim_rows claim occupancies
unfolding write_occupancies
write_occupancies_lem claim [] rows rows' e = sym (append-nil rows ∙ ok-injective e)
write_occupancies_lem claim (o ∷ os) rows rows' e =
    let (_, _, after_check) =
      >>=-eq-ok (check_entitlement o claim.valid_from claim.valid_until) _ e in
    let (mid, wrote, rest) = >>=-eq-ok (write_rows claim o o.resource_ids rows) _ after_check in
    write_occupancies_lem claim os mid rows' rest
    ∙ ap (λ m. m ++ claim_rows claim os) (write_rows_lem claim o o.resource_ids rows mid wrote)
    ∙ append_assoc rows (rows_for claim o o.resource_ids) (claim_rows claim os)

-- The row as `set_status` leaves it.
abbrev pub restatus : ℕ → Status → Bool → Reservation → Reservation
restatus pk status holds row =
    if belongs_to pk row
    then record row { status = some status; reserves_spectrum = holds }
    else row

-- `set_status` changes the status of every row of the path, and no other row.
pub restatus_rows_lem :
    (pk : ℕ) (status : Status) (holds : Bool) (done todo rows' : List Reservation)
    → restatus_rows pk status holds done todo ≡ ok rows'
    → rows' ≡ done ++ map (restatus pk status holds) todo
unfolding restatus_rows
restatus_rows_lem pk status holds done [] rows' e = sym (append-nil done ∙ ok-injective e)
restatus_rows_lem pk status holds done (row ∷ todo) rows' e =
    elim (Bool-cases (belongs_to pk row)) [
      | inr other ↦ rw other (
          restatus_rows_lem pk status holds (done ++ row ∷ []) todo rows' (rw other at e)
          ∙ append_assoc done (row ∷ []) (map (restatus pk status holds) todo))
      | inl mine ↦
          let row' = record row { status = some status; reserves_spectrum = holds } in
          let (_, _, rest) =
            >>=-eq-ok (guarded (admit row' (done ++ todo)))
              (λ _. restatus_rows pk status holds (done ++ row' ∷ []) todo) (rw mine at e) in
          rw mine (
            restatus_rows_lem pk status holds (done ++ row' ∷ []) todo rows' rest
            ∙ append_assoc done (row' ∷ []) (map (restatus pk status holds) todo))
    ]
