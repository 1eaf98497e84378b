-- ===== src/Paths/Lifecycle/Stored.antt =====
-- The stored paths and the table of reservations together, under calls that load their path first.
use vsat_frequency_managemen.Accounts.{Actor}
use vsat_frequency_managemen.Database.{Db, Reservation, SatnetPath, Status}
use vsat_frequency_managemen.Database.Action.{Failure}
use vsat_frequency_managemen.Database.Calls.{clean_of}
use vsat_frequency_managemen.Paths.Lifecycle.{Move, moved_path, update_path}
use vsat_frequency_managemen.Paths.Lifecycle.Agreement.{StaysInStep, transition-StaysInStep}
use vsat_frequency_managemen.Paths.Lifecycle.Applied.{apply_move_ok, saved_columns}
use vsat_frequency_managemen.Paths.Lifecycle.Effects.{FailsCleanly-transition, transition_ok}
use vsat_frequency_managemen.Paths.Lifecycle.InStep.{IsInStep}
use vsat_frequency_managemen.Paths.Lifecycle.Safety.{Call, make}
use vsat_frequency_managemen.Prelude.{
  All, All-In, Bool, Bool-cases, In, List, Option, Result, [], arith, err, false, first, inl, inr,
  none, ok, refl, some, subst, sym, true, ℕ, ◌==◌, ◌∙◌, ◌∷◌, ◌≡◌, ◌≢◌,
}
use vsat_frequency_managemen.Prelude.Table.{first_found}
use vsat_frequency_managemen.Spectrum.Table.{rows_of}

-- A call of `transition` on the path with a key.
pub record Order : Type 0 where
  pub path_pk : ℕ
  pub actor : Actor
  pub action : Move
  pub reason : List ℕ
  pub expected_version : Option ℕ
  pub on_behalf : Bool

abbrev pub call_of : Bool → Order → SatnetPath → Call
call_of retains o path = record {
  retains = retains;
  actor = o.actor;
  path = path;
  action = o.action;
  reason = o.reason;
  expected_version = o.expected_version;
  on_behalf = o.on_behalf;
}

abbrev pub load : ℕ → Db → Option SatnetPath
load pk db = first (λ p. p.pk == pk) db.paths

abbrev pub carry_out : Bool → Order → Db → Option SatnetPath → Db
carry_out retains o db none = db
carry_out retains o db (some path) = (make (call_of retains o path) db).1

-- The database after a sequence of orders; one for a key that no path has changes nothing.
pub carry_out_all : Bool → List Order → Db → Db
carry_out_all retains [] db = db
carry_out_all retains (o ∷ os) db =
    carry_out_all retains os (carry_out retains o db (load o.path_pk db))

-- Every stored path is in step with its reservations.
abbrev pub PathInStep : Bool → List Reservation → SatnetPath → Type 0
PathInStep retains rows p = IsInStep retains p.pk p.status rows

same_rows-IsInStep :
    (retains : Bool) (pk : ℕ) (status : Status) (rows rows' : List Reservation)
    → rows_of pk rows' ≡ rows_of pk rows
    → IsInStep retains pk status rows
    → IsInStep retains pk status rows'
same_rows-IsInStep retains pk status rows rows' e h = record {
  agree = rw e h.agree;
  none_left = λ r. e ∙ h.none_left r;
}

eq_of_test : (a b : ℕ) → (a == b) ≡ true → a ≡ b
eq_of_test a b h = ground arith

ne_of_test : (a b : ℕ) → (a == b) ≡ false → a ≢ b
ne_of_test a b h = ground arith

update-PathInStep :
    (retains : Bool) (next : SatnetPath) (rows rows' : List Reservation) (paths : List SatnetPath)
    → StaysInStep retains next rows rows'
    → All (PathInStep retains rows) paths
    → All (PathInStep retains rows') (update_path next.pk (saved_columns next) paths)
unfolding update_path
update-PathInStep retains next rows rows' [] stays h = tt
update-PathInStep retains next rows rows' (p ∷ paths) stays h =
    let rest = update-PathInStep retains next rows rows' paths stays h.1 in
    elim (Bool-cases (p.pk == next.pk)) [
      | inl same ↦ rw same (
        subst (λ k. IsInStep retains k next.status rows') (sym (eq_of_test p.pk next.pk same))
            stays.0,
        rest,
      )
      | inr other ↦ rw other (
        same_rows-IsInStep retains p.pk p.status rows rows'
            (stays.1 p.pk (ne_of_test p.pk next.pk other)) h.0,
        rest,
      )
    ]

module _ (retains : Bool) where
  call-PathInStep :
      (o : Order) (path : SatnetPath) (db : Db)
      → In path db.paths
      → All (PathInStep retains db.reservations) db.paths
      → (r : Result Failure SatnetPath × Db) → make (call_of retains o path) db ≡ r
      → All (PathInStep retains r.1.reservations) r.1.paths
  call-PathInStep o path db i h (ok path', db') e =
      let c = call_of retains o path in
      let m =
        transition_ok retains o.actor path o.action o.reason o.expected_version o.on_behalf db db'
          path' e in
      let applied = apply_move_ok retains path m.move o.reason db db' path' m.applied in
      let stays =
        transition-StaysInStep c db db' path'
          (All-In (PathInStep retains db.reservations) db.paths h path i) e in
      let next = moved_path path m.move o.reason in
      let own : StaysInStep retains next db.reservations db'.reservations =
        subst (λ p. StaysInStep retains p db.reservations db'.reservations) applied.0 stays in
      rw applied.1 (update-PathInStep retains next db.reservations db'.reservations db.paths own h)
  call-PathInStep o path db i h (err x, db') e =
      let same =
        clean_of (make (call_of retains o path)) db db' x
          (FailsCleanly-transition retains o.actor path o.action o.reason o.expected_version
            o.on_behalf)
          e in
      rw (same.0, same.1) h

  order-PathInStep :
      (o : Order) (db : Db) (loaded : Option SatnetPath)
      → load o.path_pk db ≡ loaded
      → All (PathInStep retains db.reservations) db.paths
      → All
          (PathInStep retains (carry_out retains o db loaded).reservations)
          (carry_out retains o db loaded).paths
  order-PathInStep o db none e h = h
  order-PathInStep o db (some path) e h =
      call-PathInStep o path db (first_found (λ p. p.pk == o.path_pk) db.paths path e).0 h
        (make (call_of retains o path) db) refl

  -- Where every stored path is in step with its reservations, every stored path is so again after any
  -- sequence of transitions of loaded paths, made or refused.
  pub stored_paths-InStep :
      (os : List Order) (db : Db)
      → All (PathInStep retains db.reservations) db.paths
      → All
          (PathInStep retains (carry_out_all retains os db).reservations)
          (carry_out_all retains os db).paths
  unfolding carry_out_all
  stored_paths-InStep [] db h = h
  stored_paths-InStep (o ∷ os) db h =
      stored_paths-InStep os (carry_out retains o db (load o.path_pk db))
        (order-PathInStep o db (load o.path_pk db) refl h)
