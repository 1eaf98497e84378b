-- ===== src/Paths/Lifecycle/InStep.antt =====
-- The status of a path beside the status of its reservations (satnet_paths/lifecycle.py: "a status
-- change is a spectrum change").
use vsat_frequency_managemen.Database.{
  Reservation, SatnetPath, Side, Status, cancelled, draft, import_review, on_air, pending_approval,
  planned, retired, suspended,
}
use vsat_frequency_managemen.Paths.Lifecycle.{
  SpectrumEffect, available_from, path_claim, releases, reserves, restatuses,
}
use vsat_frequency_managemen.Prelude.{
  All, All-append, Bool, Bool-cases, List, Option, [], ap, arith, false, inl, inr, keep, map, none,
  refl, some, sym, true, ℕ, ◌++◌, ◌==◌, ◌∷◌, ◌≡◌, ◌≢◌,
}
use vsat_frequency_managemen.Spectrum.{reserves_spectrum_of}
use vsat_frequency_managemen.Spectrum.Table.{belongs_to, names, rows_of, rows_without}
use vsat_frequency_managemen.Spectrum.Table.Written.{claim_rows, restatus, rows_for}

-- A row that says what its path's status says.
abbrev pub Agrees : Bool → Status → Reservation → Type 0
Agrees retains status row =
    (row.status ≡ some status) × (row.reserves_spectrum ≡ reserves_spectrum_of status retains)

-- Every row of the path says what its status says, and a draft or a finished path has none.
abbrev pub rowless : Status → Bool
rowless draft = true
rowless cancelled = true
rowless retired = true
rowless _ = false

pub record IsInStep (retains : Bool) (pk : ℕ) (status : Status) (rows : List Reservation)
    : Type 0 where
  pub agree : All (Agrees retains status) (rows_of pk rows)
  pub none_left : rowless status ≡ true → rows_of pk rows ≡ []

pub keep-append {ℓ} :
    {A : Type ℓ} (p : A → Bool) (xs ys : List A) → keep p (xs ++ ys) ≡ keep p xs ++ keep p ys
keep-append p [] ys = refl
keep-append p (x ∷ xs) ys = ground (arith, keep-append p xs ys)

-- What is deleted is gone.
pub rows_of-rows_without :
    (pk : ℕ) (rows : List Reservation) → rows_of pk (rows_without pk rows) ≡ []
rows_of-rows_without pk [] = refl
rows_of-rows_without pk (row ∷ rows) = ground (arith, rows_of-rows_without pk rows)

belongs-restatus :
    (pk q : ℕ) (status : Status) (holds : Bool) (row : Reservation)
    → belongs_to q (restatus pk status holds row) ≡ belongs_to q row
belongs-restatus pk q status holds row = ground arith

pub restatus-Agrees :
    (retains : Bool) (pk : ℕ) (status : Status) (rows : List Reservation)
    → All
        (Agrees retains status)
        (rows_of pk (map (restatus pk status (reserves_spectrum_of status retains)) rows))
restatus-Agrees retains pk status [] = tt
restatus-Agrees retains pk status (row ∷ rows) = elim (Bool-cases (belongs_to pk row)) [
  | inl mine ↦ rw (mine, mine) ((refl, refl), restatus-Agrees retains pk status rows)
  | inr other ↦ rw (other, other) (restatus-Agrees retains pk status rows)
]

eq_self : (n : ℕ) → (n == n) ≡ true
eq_self n = ground arith

-- A row belongs to one path.
not_other : (pk q : ℕ) (o : Option ℕ) → q ≢ pk → names q o ≡ true → names pk o ≡ false
not_other pk q none ne h = refl
not_other pk q (some id) ne h = ground arith

pub restatus-others :
    (pk q : ℕ) (status : Status) (holds : Bool) (rows : List Reservation)
    → q ≢ pk
    → rows_of q (map (restatus pk status holds) rows) ≡ rows_of q rows
restatus-others pk q status holds [] ne = refl
restatus-others pk q status holds (row ∷ rows) ne = elim (Bool-cases (belongs_to q row)) [
  | inl mine ↦
      let kept : restatus pk status holds row ≡ row =
        rw (not_other pk q row.satnet_path_id ne mine) refl in
      rw (kept, mine) (ap (λ rest. row ∷ rest) (restatus-others pk q status holds rows ne))
  | inr other ↦
      rw (belongs-restatus pk q status holds row, other) (restatus-others pk q status holds rows ne)
]

pub without-others :
    (pk q : ℕ) (rows : List Reservation)
    → q ≢ pk
    → rows_of q (rows_without pk rows) ≡ rows_of q rows
without-others pk q [] ne = refl
without-others pk q (row ∷ rows) ne = elim (Bool-cases (belongs_to pk row)) [
  | inl gone ↦
      rw (gone, not_other q pk row.satnet_path_id (λ e. ne (sym e)) gone)
        (without-others pk q rows ne)
  | inr stays ↦ rw stays (keep_both row (rows_without pk rows) rows (without-others pk q rows ne))
]
  where
    keep_both :
        (row : Reservation) (xs ys : List Reservation)
        → rows_of q xs ≡ rows_of q ys
        → rows_of q (row ∷ xs) ≡ rows_of q (row ∷ ys)
    keep_both row xs ys e = rw e

-- The rows that `reserve` writes belong to the path that asked, and agree with its status.
rows_for-mine :
    (path : SatnetPath) (retains : Bool) (o : Side) (rs : List ℕ)
    → All (λ row. belongs_to path.pk row ≡ true) (rows_for (path_claim path retains) o rs)
      × All (Agrees retains path.status) (rows_for (path_claim path retains) o rs)
rows_for-mine path retains o [] = (tt, tt)
rows_for-mine path retains o (r ∷ rs) =
    let (mine, agree) = rows_for-mine path retains o rs in
    ((eq_self path.pk, mine), ((refl, refl), agree))

pub claim_rows-mine :
    (path : SatnetPath) (retains : Bool) (os : List Side)
    → All (λ row. belongs_to path.pk row ≡ true) (claim_rows (path_claim path retains) os)
      × All (Agrees retains path.status) (claim_rows (path_claim path retains) os)
claim_rows-mine path retains [] = (tt, tt)
claim_rows-mine path retains (o ∷ os) =
    let claim = path_claim path retains in
    let (m1, a1) = rows_for-mine path retains o o.resource_ids in
    let (m2, a2) = claim_rows-mine path retains os in
    (
      All-append (λ row. belongs_to path.pk row ≡ true) (rows_for claim o o.resource_ids)
          (claim_rows claim os) m1 m2,
      All-append (Agrees retains path.status) (rows_for claim o o.resource_ids)
          (claim_rows claim os) a1 a2,
    )

pub none_of_another :
    (pk q : ℕ) (rows : List Reservation)
    → q ≢ pk
    → All (λ row. belongs_to pk row ≡ true) rows
    → rows_of q rows ≡ []
none_of_another pk q [] ne h = refl
none_of_another pk q (row ∷ rows) ne h =
    rw (not_other q pk row.satnet_path_id (λ e. ne (sym e)) h.0) (none_of_another pk q rows ne h.1)

-- What each edge of the graph does to the spectrum fits the statuses at its ends.
abbrev pub Fits : Status → SpectrumEffect → Status → Type 0
Fits from reserves to = (rowless from ≡ true) × (rowless to ≡ false)
Fits from restatuses to = rowless to ≡ false
Fits from releases to = Unit

pub edges_fit : (s : Status) → All (λ m. Fits s m.spectrum m.to_status) (available_from s)
edges_fit draft = ((refl, refl), (tt, tt))
edges_fit planned = (refl, (tt, tt))
edges_fit pending_approval = (refl, (refl, tt))
edges_fit on_air = (refl, (tt, tt))
edges_fit suspended = (refl, (tt, tt))
edges_fit cancelled = tt
edges_fit retired = tt
edges_fit import_review = tt
