-- ===== src/Spectrum/Table/Holding.antt =====
-- What the exclusion constraint of spectrum/models.py means for one frequency at one moment.
use vsat_frequency_managemen.Calculations.Periods.{begins_after, period_overlaps}
use vsat_frequency_managemen.Calculations.Ranges.{FrequencyRange, contains_hz, overlaps}
use vsat_frequency_managemen.Database.{Reservation}
use vsat_frequency_managemen.Prelude.{
  All, Bool, List, Pairs, [], arith, keep, keep_passes, leb, length, not, not_both, true, ℕ, ◌&&◌,
  ◌==◌, ◌∷◌, ◌≡◌, ◌≤◌,
}
use vsat_frequency_managemen.Prelude.Int.{ℤ}
use vsat_frequency_managemen.Prelude.Table.{Pairs-keep}
use vsat_frequency_managemen.Spectrum.{active_period, allocated_rf, excludes}
use vsat_frequency_managemen.Spectrum.Table.Exclusion.{Compatible, IsExclusive}

-- The row holds the frequency on the resource at the moment.
abbrev pub holds_at : (resource_id : ℕ) (hz : ℤ) (t : ℕ) → Reservation → Bool
holds_at resource_id hz t row =
    row.reserves_spectrum
    && ((row.spectrum_resource_id == resource_id)
        && (contains_hz (allocated_rf row) hz
            && (leb row.valid_from t && not (begins_after t row.valid_until))))

abbrev pub holders : (resource_id : ℕ) (hz : ℤ) (t : ℕ) → List Reservation → ℕ
holders resource_id hz t rows = length (keep (holds_at resource_id hz t) rows)

module _ (resource_id : ℕ) (hz : ℤ) (t : ℕ) where
  period_shared :
      (a b : Reservation)
      → leb a.valid_from t && not (begins_after t a.valid_until) ≡ true
      → leb b.valid_from t && not (begins_after t b.valid_until) ≡ true
      → period_overlaps (active_period a) (active_period b) ≡ true
  period_shared a b h k = ground arith

  range_shared :
      (a b : FrequencyRange)
      → contains_hz a hz ≡ true
      → contains_hz b hz ≡ true
      → overlaps a b ≡ true
  range_shared a b h k = ground arith

  two_holders_exclude :
      (a b : Reservation)
      → holds_at resource_id hz t a ≡ true
      → holds_at resource_id hz t b ≡ true
      → excludes a b ≡ true
  unfolding excludes
  two_holders_exclude a b h k =
      ground (arith, period_shared a b, range_shared (allocated_rf a) (allocated_rf b))

  at_most_one :
      (rows : List Reservation)
      → Pairs Compatible rows
      → All (λ row. holds_at resource_id hz t row ≡ true) rows
      → length rows ≤ 1
  at_most_one [] h k = omega arith
  at_most_one (a ∷ []) h k = omega arith
  at_most_one (a ∷ b ∷ rows) h k = not_both _ (two_holders_exclude a b k.0 k.1.0) h.0.0

  -- In a table that keeps the invariant, each frequency on each resource has at most one holder at
  -- each moment.
  pub holders-le-one :
      (rows : List Reservation) → IsExclusive rows → holders resource_id hz t rows ≤ 1
  holders-le-one rows h =
      at_most_one (keep (holds_at resource_id hz t) rows)
        (Pairs-keep Compatible (holds_at resource_id hz t) rows h.apart)
        (keep_passes (holds_at resource_id hz t) rows)
