-- ===== src/Geolocation.antt =====
-- The place of a new session (src/modules/auth/geolocation): the service with its cache and its remote
-- service, and the listener that writes the place to the session. The cache, the remote service and
-- the table of sessions are parameters, and each call of them may throw.
pub mod Placing
mod Tests
use payflow_x.Prelude.{ℕ, ◌+◌, Bool, true, false, ◌++◌, [], ◌∷◌, Option, none, some}
use payflow_x.Text.{Text, codes, truthy}
use payflow_x.Http.{Error, Action, pure, catching, ◌>>=◌, ◌>>◌}
use payflow_x.Db.{Table}
use payflow_x.Guards.{is_private_ip}

-- The column of `Session` that the listener writes.
pub record PlacedSession : Type 0 where
  pub location : Option Text

-- The body of the remote service's answer.
pub record Place : Type 0 where
  pub city : Option Text
  pub country : Option Text

-- `SessionCreatedEvent`
pub record SessionCreated : Type 0 where
  pub session_id : ℕ
  pub ip : Text

-- `cache_set` is given the time to live; `fetch_place` has no place where the answer is not ok.
pub record Atlas (S : Type 0) : Type 0 where
  pub cache_get : Text → Action S (Option Text)
  pub cache_set : Text → Text → ℕ → Action S (Unit {0})
  pub fetch_place : Text → Action S (Option Place)

abbrev pub cache_ttl : ℕ
cache_ttl = 3_600_000

abbrev pub local_network : Text
local_network = codes "Local network"

abbrev pub cache_key : Text → Text
cache_key ip = codes "geo:" ++ ip

-- A text in a template, where it may be missing.
abbrev pub shown : Option Text → Text
shown none = codes "undefined"
shown (some t) = t

abbrev pub location_of : Place → Text
location_of place = shown place.city ++ (codes ", " ++ shown place.country)

-- The location of a place that has a city or a country.
abbrev pub named : Option Text → Option Text → Text → Option Text
named none none t = none
named (some city) country t = some t
named none (some country) t = some t

abbrev pub location_if : Option Place → Option Text
location_if none = none
location_if (some place) = named (truthy place.city) (truthy place.country) (location_of place)

module _ {S : Type 0} (t : Table S PlacedSession) where
  unfoldable pub set_location : ℕ → Option Text → Action S (Unit {0})
  set_location id none = pure tt
  set_location id (some location) = do
    t.update id (λ session. record session { location = some location })
    pure tt

module _ {S : Type 0} (a : Atlas S) where
  -- The first `try`: a text that is cached and not empty.
  unfoldable pub cached_location : Text → Action S (Option Text)
  cached_location ip =
      catching (a.cache_get (cache_key ip) >>= λ cached. pure (truthy cached)) (λ e. pure none)

  -- The `set`, whose failure is logged.
  unfoldable pub remember_location : Text → Text → Action S (Unit {0})
  remember_location ip t = catching (a.cache_set (cache_key ip) t cache_ttl) (λ e. pure tt)

  unfoldable pub on_location : Text → Option Text → Action S (Option Text)
  unfolding remember_location
  on_location ip none = pure none
  on_location ip (some t) = do remember_location ip t; pure (some t)

  -- The second `try`.
  unfoldable pub ask_location : Text → Action S (Option Text)
  unfolding on_location
  ask_location ip =
      catching (a.fetch_place ip >>= λ place. on_location ip (location_if place)) (λ e. pure none)

  unfoldable pub on_cache : Text → Option Text → Action S (Option Text)
  unfolding ask_location
  on_cache ip none = ask_location ip
  on_cache ip (some t) = pure (some t)

  unfoldable pub resolve_ip : Bool → Text → Action S (Option Text)
  unfolding cached_location on_cache
  resolve_ip true ip = pure (some local_network)
  resolve_ip false ip = cached_location ip >>= on_cache ip

  -- `GeolocationService.resolve`
  unfoldable pub resolve : Text → Action S (Option Text)
  unfolding resolve_ip
  resolve ip = resolve_ip (is_private_ip ip) ip

  -- `handleSessionCreated`
  unfoldable pub handle_session_created :
      Table S PlacedSession → SessionCreated → Action S (Unit {0})
  unfolding resolve set_location
  handle_session_created t event =
      catching (resolve event.ip >>= λ location. set_location t event.session_id (truthy location))
        (λ e. pure tt)
