-- ===== src/Accounts.antt =====
-- The authorization choke point (accounts/policy.py, accounts/scope.py) and the conjunctive scope of
-- a Satnet (satnets/scope.py). What Django answers of a user, `has_perm` and the rows of the scope
-- tables, comes with the actor.
use vsat_frequency_managemen.Database.{Capability, permission_denied}
use vsat_frequency_managemen.Database.Action.{
  Action, permission_denied_error, pure, raise, record_event, ◌>>◌,
}
use vsat_frequency_managemen.Prelude.{
  Bool, List, Option, any, false, if◌then◌else◌, none, some, true, ℕ, ◌&&◌, ◌==◌, ◌||◌,
}

-- An `Actor`: a `User`, or an `AnonymousUser`.
pub record Actor : Type 0 where
  pub pk : ℕ
  pub is_user : Bool
  pub is_authenticated : Bool
  pub is_superuser : Bool
  pub is_admin : Bool
  pub manages_scopes : Bool
  pub has_perm : Capability → Bool
  pub beam_ids : List ℕ
  pub hub_ids : List ℕ

-- `scope.is_in_scope(user, obj)` for an object whose model has this resolver, if any.
unfoldable pub is_in_scope : Option (Actor → Bool) → Actor → Bool
is_in_scope none actor = true
is_in_scope (some resolver) actor =
    if actor.is_authenticated then (if actor.is_admin then true else resolver actor) else false

-- `satnet_path_in_scope`
abbrev pub satnet_path_in_scope : Actor → Bool
satnet_path_in_scope actor = actor.is_authenticated

-- `policy.allows(user, capability, path)`
unfoldable pub allows : Actor → Capability → Bool
unfolding is_in_scope
allows actor capability =
    if actor.is_authenticated
    then (if actor.has_perm capability
        then is_in_scope (some satnet_path_in_scope) actor
        else false)
    else false

-- `_record_denial`, then `raise PermissionDenied`.
abbrev deny : Capability → Action (Unit {0})
deny capability = do record_event (permission_denied capability); raise permission_denied_error

-- `policy.require(user, capability, path)`
unfoldable pub require : Actor → Capability → Action (Unit {0})
unfolding is_in_scope
require actor capability =
    if actor.is_authenticated
    then (if actor.has_perm capability
        then (if is_in_scope (some satnet_path_in_scope) actor then pure tt else deny capability)
        else deny capability)
    else deny capability

-- `policy.record_denial`
abbrev pub record_denial : Capability → Action (Unit {0})
record_denial capability = record_event (permission_denied capability)

-- `satnets.scope.may_act_on`, less the reason that it words.
unfoldable pub may_act_on : Actor → (beam_id hub_id : ℕ) → Bool
may_act_on actor beam_id hub_id =
    if actor.is_superuser || actor.manages_scopes
    then true
    else any (λ id. id == beam_id) actor.beam_ids && any (λ id. id == hub_id) actor.hub_ids
