-- ===== src/Paths/Creation/Created.antt =====
-- What a call of `create` that returned has written (satnet_paths/services.py).
use vsat_frequency_managemen.Accounts.{Actor}
use vsat_frequency_managemen.Calculations.Gaps.{fits}
use vsat_frequency_managemen.Database.{Db, Reservation, SatnetPath, Status, path_created}
use vsat_frequency_managemen.Database.Action.{
  checked, computed, integrity_error, pure, read, record_event, refuse_if, validation_error, ◌>>=◌,
  ◌>>◌,
}
use vsat_frequency_managemen.Database.Calls.{atomic_ok, bind_ok, refuse_if_ok}
use vsat_frequency_managemen.Paths.Creation.{
  Identity, append_path, create_row, fields_of, full_clean, insert_path, is_operational, new_path,
  reserve_if_operational, takes_place_of,
}
use vsat_frequency_managemen.Paths.Creation.Laws.{computed_ok}
use vsat_frequency_managemen.Paths.Derived.{
  DerivedFields, checks_hold, derived_fields, fields_fit, fits_positive, revision_fits,
}
use vsat_frequency_managemen.Paths.Lifecycle.{occupancies_of, path_claim}
use vsat_frequency_managemen.Paths.Preview.{PathSide, PathValues, Proposal, SatnetRow, sides_for}
use vsat_frequency_managemen.Prelude.{
  Bool, Bool-cases, List, [], any, ap, arith, false, inl, inr, not, not_both, ok, ok-injective,
  subst, subst₂, sym, true, ℕ, ◌&&◌, ◌++◌, ◌∙◌, ◌∷◌, ◌≡◌,
}
use vsat_frequency_managemen.Spectrum.Services.Done.{reserve_ok}
use vsat_frequency_managemen.Spectrum.Table.{write_occupancies}

pub fields_of_ok :
    (values : PathValues) (p : Proposal) (db mid : Db) (f : DerivedFields)
    → fields_of values p db ≡ (ok f, mid)
    → ((sides : PathSide × PathSide) × (sides_for p.config p.config.payload_path p.placement
          ≡ ok sides)
        × (derived_fields values p sides.0 sides.1 ≡ ok f))
      × (mid ≡ db)
unfolding fields_of
fields_of_ok values p db mid f e =
    let (sides, d1, e1, r1) =
      bind_ok (computed (sides_for p.config p.config.payload_path p.placement))
        (λ sides. checked (derived_fields values p sides.0 sides.1)) db f mid e in
    let (returned, s1) = computed_ok _ db d1 sides e1 in
    let derived : derived_fields values p sides.0 sides.1 ≡ ok f = ap (λ x. x.0) r1 in
    let s2 : d1 ≡ mid = ap (λ x. x.1) r1 in ((sides, returned, derived), sym s2 ∙ s1)

not-false : (b : Bool) → not b ≡ false → b ≡ true
not-false b e = ground arith

full_clean_ok :
    (f : DerivedFields) (path : SatnetPath) (db mid : Db) (u : Unit {0})
    → full_clean f path db ≡ (ok u, mid)
    → (fields_fit f && fits_positive path.revision_number ≡ true)
      × (checks_hold f ≡ true)
      × (any (takes_place_of path) db.paths ≡ false)
      × (mid ≡ db)
unfolding full_clean
full_clean_ok f path db mid u e =
    let last = λ (taken : Bool). refuse_if taken validation_error in
    let query = λ (_ : Unit {0}). read (λ db. any (takes_place_of path) db.paths) >>= last in
    let second = λ (_ : Unit {0}). refuse_if (not (checks_hold f)) validation_error >>= query in
    let (u1, d1, e1, r1) =
      bind_ok
        (refuse_if (not (fields_fit f && fits_positive path.revision_number)) validation_error)
        second db u mid e in
    let (u2, d2, e2, r2) =
      bind_ok (refuse_if (not (checks_hold f)) validation_error) query d1 u mid r1 in
    let (taken, d3, e3, r3) =
      bind_ok (read (λ db. any (takes_place_of path) db.paths)) last d2 u mid r2 in
    let (fits, s1) = refuse_if_ok _ validation_error db d1 u1 e1 in
    let (held, s2) = refuse_if_ok _ validation_error d1 d2 u2 e2 in
    let asked : any (takes_place_of path) d2.paths ≡ taken = ok-injective (ap (λ x. x.0) e3) in
    let s3 : d2 ≡ d3 = ap (λ x. x.1) e3 in
    let (free, s4) = refuse_if_ok taken validation_error d3 mid u r3 in
    let before : d2 ≡ db = s2 ∙ s1 in
    (
      not-false (fields_fit f && fits_positive path.revision_number) fits,
      not-false (checks_hold f) held,
      ap (λ d. any (takes_place_of path) d.paths) (sym before) ∙ asked ∙ free,
      s4 ∙ sym s3 ∙ before,
    )

insert_path_ok :
    (path : SatnetPath) (db mid : Db) (u : Unit {0})
    → insert_path path db ≡ (ok u, mid)
    → (revision_fits path.revision_number path.supersedes ≡ true)
      × (record db { paths = db.paths ++ path ∷ [] } ≡ mid)
unfolding insert_path
insert_path_ok path db mid u e =
    let (u1, d1, e1, r1) =
      bind_ok (refuse_if (not (revision_fits path.revision_number path.supersedes)) integrity_error)
        (λ _. append_path path) db u mid e in
    let (fits, s1) = refuse_if_ok _ integrity_error db d1 u1 e1 in
    let appended : record d1 { paths = d1.paths ++ path ∷ [] } ≡ mid = ap (λ x. x.1) r1 in
    (
      not-false (revision_fits path.revision_number path.supersedes) fits,
      subst (λ (d : Db). record d { paths = d.paths ++ path ∷ [] } ≡ mid) s1 appended,
    )

-- What `if path.is_operational: reserve(...)` did to the reservations.
pub record IsReserved (retains : Bool) (path : SatnetPath) (before after : List Reservation)
    : Type 0 where
  pub operational :
      is_operational path.status ≡ true
      → write_occupancies (path_claim path retains) (occupancies_of path) before ≡ ok after
  pub drafted : is_operational path.status ≡ false → after ≡ before

pub reserve_if_operational_ok :
    (retains : Bool) (path : SatnetPath) (db mid : Db) (u : Unit {0})
    → reserve_if_operational retains path db ≡ (ok u, mid)
    → IsReserved retains path db.reservations mid.reservations
      × (mid.paths ≡ db.paths)
      × (mid.decisions ≡ db.decisions)
unfolding reserve_if_operational
reserve_if_operational_ok retains path db mid u e = elim (Bool-cases (is_operational path.status)) [
  | inl holds ↦
      let run = rw holds at e in
      let (rows, written, only) = reserve_ok _ _ db mid u run in
      (
        record { operational = λ _. rw only.2 written; drafted = λ d. not_both _ holds d },
        only.0,
        only.1,
      )
  | inr draft_only ↦
      let run = rw draft_only at e in
      let same : db ≡ mid = ap (λ x. x.1) run in
      (
        record {
          operational = λ o. not_both _ o draft_only;
          drafted = λ _. sym (ap (λ d. d.reservations) same);
        },
        sym (ap (λ d. d.paths) same),
        sym (ap (λ d. d.decisions) same),
      )
]

-- What `_create` has written.
pub record IsCreated (retains : Bool) (actor : Actor) (s : SatnetRow) (values : PathValues)
    (status : Status) (p : Proposal) (reason : List ℕ) (i : Identity) (db : Db) (path : SatnetPath)
    (db' : Db) : Type 0 where
  pub fields : DerivedFields
  pub sides : PathSide × PathSide
  pub placed : sides_for p.config p.config.payload_path p.placement ≡ ok sides
  pub derived : derived_fields values p sides.0 sides.1 ≡ ok fields
  pub fitting : fields_fit fields && fits_positive path.revision_number ≡ true
  pub checked_columns : checks_hold fields ≡ true
  pub revision : revision_fits path.revision_number path.supersedes ≡ true
  pub row : path ≡ new_path i actor s status reason fields
  pub unique : any (takes_place_of path) db.paths ≡ false
  pub stored : db'.paths ≡ db.paths ++ path ∷ []
  pub reserved : IsReserved retains path db.reservations db'.reservations
  pub decisions_kept : db'.decisions ≡ db.decisions

pub create_row_ok :
    (retains : Bool) (actor : Actor) (s : SatnetRow) (values : PathValues) (status : Status)
    (p : Proposal) (reason : List ℕ) (i : Identity) (db db' : Db) (path : SatnetPath)
    → create_row retains actor s values status p reason i db ≡ (ok path, db')
    → IsCreated retains actor s values status p reason i db path db'
unfolding create_row
create_row_ok retains actor s values status p reason i db db' path e =
    let row = new_path i actor s status reason in
    let tail4 =
      λ (f : DerivedFields) (_ : Unit {0}). record_event (path_created i.id) >> pure (row f) in
    let tail3 =
      λ (f : DerivedFields) (_ : Unit {0}). reserve_if_operational retains (row f) >>= tail4 f in
    let tail2 = λ (f : DerivedFields) (_ : Unit {0}). insert_path (row f) >>= tail3 f in
    let tail1 = λ (f : DerivedFields). full_clean f (row f) >>= tail2 f in
    let run = atomic_ok (fields_of values p >>= tail1) db path db' e in
    let (f, d1, e1, r1) = bind_ok (fields_of values p) tail1 db path db' run in
    let (u2, d2, e2, r2) = bind_ok (full_clean f (row f)) (tail2 f) d1 path db' r1 in
    let (u3, d3, e3, r3) = bind_ok (insert_path (row f)) (tail3 f) d2 path db' r2 in
    let (u4, d4, e4, r4) =
      bind_ok (reserve_if_operational retains (row f)) (tail4 f) d3 path db' r3 in
    let (found, s1) = fields_of_ok values p db d1 f e1 in
    let (fits, held, free, s2) = full_clean_ok f (row f) d1 d2 u2 e2 in
    let (revised, s3) = insert_path_ok (row f) d2 d3 u3 e3 in
    let (reserved, paths, decisions) = reserve_if_operational_ok retains (row f) d3 d4 u4 e4 in
    let same : row f ≡ path = ok-injective (ap (λ x. x.0) r4) in
    let before : d2 ≡ db = s2 ∙ s1 in
    let reserved_before : d3.reservations ≡ db.reservations =
      sym (ap (λ d. d.reservations) s3) ∙ ap (λ d. d.reservations) before in
    let reserved_after : d4.reservations ≡ db'.reservations = ap (λ x. x.1.reservations) r4 in
    record {
      fields = f;
      sides = found.0;
      placed = found.1;
      derived = found.2;
      fitting =
          subst (λ (r : SatnetPath). fields_fit f && fits_positive r.revision_number ≡ true) same
            fits;
      checked_columns = held;
      revision =
          subst (λ (r : SatnetPath). revision_fits r.revision_number r.supersedes ≡ true) same
            revised;
      row = sym same;
      unique = subst₂ (λ r (d : Db). any (takes_place_of r) d.paths ≡ false) same s1 free;
      stored =
          sym (ap (λ x. x.1.paths) r4)
          ∙ paths
          ∙ sym (ap (λ d. d.paths) s3)
          ∙ ap (λ (d : Db). d.paths ++ row f ∷ []) before
          ∙ ap (λ r. db.paths ++ r ∷ []) same;
      reserved =
          subst (λ r. IsReserved retains r db.reservations db'.reservations) same
            (subst₂ (λ a b. IsReserved retains (row f) a b) reserved_before reserved_after
              reserved);
      decisions_kept =
          sym (ap (λ x. x.1.decisions) r4)
          ∙ decisions
          ∙ sym (ap (λ d. d.decisions) s3)
          ∙ ap (λ (d : Db). d.decisions) before;
    }
