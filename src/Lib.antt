-- ===== src/Lib.antt =====
-- VSAT frequency management: the spectrum a satellite network may transmit on, planned, approved and
-- reserved. The development covers the engineering arithmetic and the services that decide who holds
-- which frequencies.
--
-- The program's parts and the files about them:
--   * calculations/ranges.py (Calculations/Ranges): half-open intervals of whole Hz. `FrequencyRange`
--     is a record of two integers; a constructor that may raise returns a `Result`.
--   * calculations/periods.py (Calculations/Periods): half-open periods with an optional end.
--   * calculations/translation.py (Calculations/Translation) and calculations/conversion.py
--     (Calculations/Conversion): an interval on the other leg of the payload, and at intermediate
--     frequency; which equipment profile carries an interval.
--   * calculations/gaps.py (Calculations/Gaps): what is left of an entitlement.
--   * calculations/rounding.py, calculations/units.py (Calculations/Decimals): decimal numbers as a
--     sign, a coefficient and a number of places; exact products, quotients at 50 digits, `ceil_hz`
--     and `floor_hz`, `to_hz`.
--   * calculations/bandwidth.py, calculations/types.py, calculations/guards.py (Calculations/Placement,
--     Calculations/Bandwidth, Calculations/Guards): the sizes of a transmission, the occupied range
--     around a centre, the allocated range with its guards, and both sides of the payload.
--   * calculations/validation.py (Calculations/Validation): the findings on a placement.
--   * satnets/containment.py (Satnets/Containment): the period of a path inside those of its parents.
--   * beams/models.py, inventory/models/dependent.py (Beams): a Beam's direction, its payload path, its
--     windows and the assignments it may use.
--   * beams/validation.py (Beams/Validation): whether a Beam may be activated, as a list of findings and
--     a state.
--   * spectrum/selectors.py (Spectrum/Selectors): the entitlements and reservations that count now, and
--     the free capacity.
--   * satnet_paths/services.py (Paths/Preview, Paths/Proposals): `preview`, which sizes, places and
--     checks an allocation against the rows, and `auto_place`. (Paths/Derived, Paths/Creation,
--     Paths/Editing): the columns the engine owns, the CHECKs of their table, `create`,
--     `create_revision` and `rewrite`, and `edit` of satnet_paths/lifecycle.py.
--   * spectrum/services.py, spectrum/models.py (Spectrum): the table of reservations. Its CHECKs and its
--     exclusion constraint are `checks_pass` and `excludes`; `admit` is what PostgreSQL answers to one
--     INSERT or UPDATE beside the other rows. `reserve`, `set_status` and `release` change the table
--     row by row, each in one transaction with its audit event.
--   * accounts/policy.py, accounts/scope.py, satnets/scope.py (Accounts): `require`, `allows`,
--     `may_act_on`. What Django answers of a user comes with the actor.
--   * satnet_paths/lifecycle.py (Paths/Lifecycle): the transition graph, and `transition` with the
--     checks before it, the row it saves and the reservations it moves.
--   * approvals/services.py (Approvals): `decide`, which records a decision and makes its move.
--   * Database holds the rows that these share, Database/Action the calls: a call takes the database,
--     may raise, and leaves what it wrote unless `atomic` rolls it back.
--   * Prelude holds integers, lists, sorting and results. Examples runs the definitions and the
--     theorems at concrete inputs.
-- The lifecycle calls the spectrum services and the policy; approvals call the lifecycle; the spectrum
-- table compares intervals and periods as the arithmetic does. A preview calls the arithmetic, the
-- containment check and the selectors; creation, revision and edit save what it derives.
--
-- Frequencies are unbounded integers, as in Python; moments, keys and versions are natural numbers.
-- Every loop of the code runs over a list and is structural recursion here. Fuel stands in one place,
-- the number of digits of a coefficient (Calculations/Decimals): its fuel is the coefficient and one
-- more, and each step divides by ten.
--
-- Not modelled: `revise` of satnet_paths/lifecycle.py, which needs the stored inputs of a path, the
-- services around Beams and Satnets (beams/services.py, satnets/services.py), the inventory, imports,
-- accounts and the second factor, reporting and the Django views and forms. Transactions are taken one
-- at a time: locks and deadlocks between concurrent transactions are left to PostgreSQL. A path object
-- that a caller keeps after a raise is
-- taken to be loaded again, and texts of messages are left out.
pub mod Prelude
pub mod Calculations
pub mod Database
pub mod Satnets
pub mod Beams
pub mod Spectrum
pub mod Accounts
pub mod Paths
pub mod Approvals
pub mod Examples
