-- ===== src/Paths/Lifecycle/Returns.antt =====
-- When `_apply` of satnet_paths/lifecycle.py returns along an edge that calls `set_status` of
-- spectrum/services.py.
use vsat_frequency_managemen.Database.{
  Db, Reservation, SatnetPath, Status, path_transitioned, spectrum_restatused,
}
use vsat_frequency_managemen.Database.Action.{Action, pure, record_event, ◌>>◌}
use vsat_frequency_managemen.Database.Steps.{atomic_step, bind_step, translating_step}
use vsat_frequency_managemen.Paths.Lifecycle.{
  Transition, apply_move, as_refusal, move_spectrum, moved_path, restatuses, save_status,
  spectrum_effect,
}
use vsat_frequency_managemen.Paths.Lifecycle.InStep.{Agrees, IsInStep}
use vsat_frequency_managemen.Prelude.{
  All, All-keep_back, All-map, Bool, List, [], ap, length, ok, refl, subst, sym, true, ℕ, ◌∙◌, ◌≡◌,
}
use vsat_frequency_managemen.Spectrum.{reserves_spectrum_of}
use vsat_frequency_managemen.Spectrum.Services.{commit_rows, set_status}
use vsat_frequency_managemen.Spectrum.Table.{belongs_to, restatus_rows, rows_of}
use vsat_frequency_managemen.Spectrum.Table.Exclusion.{IsExclusive}
use vsat_frequency_managemen.Spectrum.Table.Total.{IsOnAlready, restatus_rows-total}

-- What a returned call gives back.
abbrev pub Returns : {A : Type 0} → Action A → Db → Type 0
Returns {A} m db = (a : A) × (db' : Db) × (m db ≡ (ok a, db'))

-- The rows of a path that reserves hold spectrum already.
on_already :
    (retains : Bool) (pk : ℕ) (from to : Status) (rows : List Reservation)
    → IsInStep retains pk from rows
    → (reserves_spectrum_of to retains ≡ true → reserves_spectrum_of from retains ≡ true)
    → All (IsOnAlready pk (reserves_spectrum_of to retains)) rows
on_already retains pk from to rows step keeps =
    All-map (λ row agrees mine on. (agrees mine).1 ∙ keeps on) rows
      (All-keep_back (belongs_to pk) (Agrees retains from) rows step.agree)

set_status-Returns :
    (retains : Bool) (pk : ℕ) (from to : Status) (db : Db)
    → IsExclusive db.reservations
    → IsInStep retains pk from db.reservations
    → (reserves_spectrum_of to retains ≡ true → reserves_spectrum_of from retains ≡ true)
    → Returns (set_status pk to retains) db
unfolding set_status commit_rows
set_status-Returns retains pk from to db exclusive step keeps =
    let (rows', e) =
      restatus_rows-total pk to retains [] db.reservations exclusive
        (on_already retains pk from to db.reservations step keeps) in
    let event =
      λ (_ : List Reservation). spectrum_restatused pk (length (rows_of pk db.reservations)) to in
    (
      tt,
      (commit_rows event (ok rows') db).1,
      atomic_step
          (commit_rows event
            (restatus_rows pk to (reserves_spectrum_of to retains) [] db.reservations))
          tt db (commit_rows event (ok rows') db).1 (ap (λ r. commit_rows event r db) e),
    )

-- A move along a `restatus` edge, of a path that is in step with its reservations in a table without
-- overlaps, returns where the new status reserves no more than the old one.
pub apply_move-Returns :
    (retains : Bool) (path : SatnetPath) (m : Transition) (reason : List ℕ) (db : Db)
    → IsExclusive db.reservations
    → IsInStep retains path.pk path.status db.reservations
    → m.spectrum ≡ restatuses
    → (reserves_spectrum_of m.to_status retains ≡ true
        → reserves_spectrum_of path.status retains ≡ true)
    → (db' : Db) × (apply_move retains path m reason db ≡ (ok (moved_path path m reason), db'))
unfolding apply_move save_status move_spectrum
apply_move-Returns retains path m reason db exclusive step restatus_edge keeps =
    let next = moved_path path m reason in
    let event = path_transitioned path.pk path.status next.status next.record_version in
    let tail3 : Action SatnetPath = record_event event >> pure next in
    let tail2 = move_spectrum retains next m >> tail3 in
    let d1 = (save_status next db).1 in
    let (u, d2, changed) =
      set_status-Returns retains path.pk path.status m.to_status d1 exclusive step keeps in
    let effect : spectrum_effect retains m.spectrum next d1 ≡ (ok tt, d2) =
      subst (λ s. spectrum_effect retains s next d1 ≡ (ok tt, d2)) (sym restatus_edge) changed in
    (
      (tail3 d2).1,
      atomic_step (save_status next >> tail2) next db (tail3 d2).1 (
          bind_step (save_status next) (λ _. tail2) db tt d1 refl
          ∙ bind_step (move_spectrum retains next m) (λ _. tail3) d1 tt d2
              (translating_step as_refusal (spectrum_effect retains m.spectrum next) tt d1 d2
                effect)),
    )
