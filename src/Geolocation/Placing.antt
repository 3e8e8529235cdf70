-- ===== src/Geolocation/Placing.antt =====
-- What the listener of new sessions writes, whatever its cache and its remote service do.
use payflow_x.Prelude.{
  ℕ, ◌≡◌, ◌≢◌, refl, sym, ap, ◌∙◌, Bool, true, false, [], ◌∷◌, Option, none, some, ◌==◌,
  if◌then◌else◌, Option-cases, inl, inr,
}
use payflow_x.Prelude.Result.{ok, Result-cases}
use payflow_x.Text.{Text, truthy}
use payflow_x.Http.{
  pure, bind_from, bind_err, bind_leaves, catching, catching_ok, catching_err, catching_from,
  catching_leaves, pair_ext, ◌>>=◌, ◌>>◌,
}
use payflow_x.Db.{Table, IsTable, Writes}
use payflow_x.Guards.{is_private_ip}
use payflow_x.Geolocation.{
  Atlas, PlacedSession, SessionCreated, cached_location, remember_location, on_location,
  ask_location, on_cache, resolve_ip, resolve, set_location, handle_session_created, local_network,
  location_if, cache_key, cache_ttl,
}

module _ {S : Type 0} (a : Atlas S) (t : Table S PlacedSession) where
  abbrev SameSessions : S → S → Type 0
  SameSessions s s' = (j : ℕ) → t.find_unique j s' ≡ t.find_unique j s

  abbrev Same : ℕ → S → S → Type 0
  Same j s s' = t.find_unique j s' ≡ t.find_unique j s

  -- The cache and the remote service keep no sessions.
  pub record IsAtlas : Type 0 where
    pub get_keeps : (key : Text) (s : S) → SameSessions s (a.cache_get key s).1
    pub set_keeps :
        (key location : Text) (ttl : ℕ) (s : S) → SameSessions s (a.cache_set key location ttl s).1
    pub fetch_keeps : (ip : Text) (s : S) → SameSessions s (a.fetch_place ip s).1

  -- No session is written, or one that is there gets a location that is not empty.
  pub data Placed (id : ℕ) (s s' : S) : Type 0 where
    unplaced : SameSessions s s' → Placed id s s'
    placed :
        (location : Text) (session : PlacedSession)
        → location ≢ []
        → t.find_unique id s ≡ some session
        → Writes t id (some (record session { location = some location })) s s'
        → Placed id s s'

  written :
      (id c : ℕ) (location : Text) (s : S)
      → IsTable t
      → (s' : S) × (catching (set_location t id (some (c ∷ location))) (λ e. pure tt) s
          ≡ (ok tt, s'))
        × Placed id s s'
  unfolding set_location
  written id c location s law =
      let placing = λ (r : PlacedSession). record r { location = some (c ∷ location) } in
      elim (Option-cases (t.find_unique id s)) [
        | inl missing ↦
            let (e, failed) = law.update_missing id placing s missing in
            (
              s,
              catching_err (t.update id placing >> pure tt) (λ e. pure tt) s
                  (bind_err (t.update id placing) (λ r. pure tt) s failed),
              unplaced (λ j. refl),
            )
        | inr (session, found) ↦
            let (s', done, writes) = law.update_found id placing session s found in
            (
              s',
              catching_ok (t.update id placing >> pure tt) (λ e. pure tt) s
                  (bind_from (t.update id placing) (λ r. pure tt) s done),
              placed (c ∷ location) session (λ h. cc) found writes,
            )
      ]

  set_outcome :
      (id : ℕ) (o : Option Text) (s : S)
      → IsTable t
      → (s' : S) × (catching (set_location t id (truthy o)) (λ e. pure tt) s ≡ (ok tt, s'))
        × Placed id s s'
  unfolding set_location
  set_outcome id none s law = (s, refl, unplaced (λ j. refl))
  set_outcome id (some []) s law = (s, refl, unplaced (λ j. refl))
  set_outcome id (some (c ∷ location)) s law = written id c location s law

  after_keeping : (id : ℕ) (s s1 s' : S) → SameSessions s s1 → Placed id s1 s' → Placed id s s'
  after_keeping id s s1 s' same (unplaced h) = unplaced (λ j. h j ∙ same j)
  after_keeping id s s1 s' same (placed location session filled found writes) =
      placed location session filled (sym (same id) ∙ found) (λ j.
        writes j
        ∙ ap (λ o. if id == j then some (record session { location = some location }) else o)
            (same j))

  module _ (table : IsTable t) (atlas : IsAtlas) where
    on_location_keeps :
        (ip : Text) (o : Option Text) (s : S) → SameSessions s (on_location a ip o s).1
    unfolding on_location remember_location
    on_location_keeps ip none s j = refl
    on_location_keeps ip (some location) s j =
        bind_leaves (Same j s)
          (catching (a.cache_set (cache_key ip) location cache_ttl) (λ e. pure tt))
          (λ u. pure (some location)) s
          (catching_leaves (Same j s) (a.cache_set (cache_key ip) location cache_ttl) (λ e. pure tt)
            s (atlas.set_keeps (cache_key ip) location cache_ttl s j)
            (λ e. atlas.set_keeps (cache_key ip) location cache_ttl s j))
          (λ u e.
            catching_leaves (Same j s) (a.cache_set (cache_key ip) location cache_ttl)
              (λ e. pure tt) s (atlas.set_keeps (cache_key ip) location cache_ttl s j)
              (λ e. atlas.set_keeps (cache_key ip) location cache_ttl s j))

    ask_location_keeps : (ip : Text) (s : S) → SameSessions s (ask_location a ip s).1
    unfolding ask_location
    ask_location_keeps ip s j =
        let asked : t.find_unique j
              ((a.fetch_place ip >>= λ place. on_location a ip (location_if place)) s).1
            ≡ t.find_unique j s =
          bind_leaves (Same j s) (a.fetch_place ip) (λ place. on_location a ip (location_if place))
            s (atlas.fetch_keeps ip s j)
            (λ place e.
              on_location_keeps ip (location_if place) (a.fetch_place ip s).1 j
              ∙ atlas.fetch_keeps ip s j) in
        catching_leaves (Same j s)
          (a.fetch_place ip >>= λ place. on_location a ip (location_if place)) (λ e. pure none) s
          asked (λ e. asked)

    on_cache_keeps : (ip : Text) (o : Option Text) (s : S) → SameSessions s (on_cache a ip o s).1
    unfolding on_cache
    on_cache_keeps ip none s j = ask_location_keeps ip s j
    on_cache_keeps ip (some location) s j = refl

    resolve_ip_keeps : (b : Bool) (ip : Text) (s : S) → SameSessions s (resolve_ip a b ip s).1
    unfolding resolve_ip cached_location
    resolve_ip_keeps true ip s j = refl
    resolve_ip_keeps false ip s j =
        let looked : t.find_unique j
              ((a.cache_get (cache_key ip) >>= λ cached. pure (truthy cached)) s).1
            ≡ t.find_unique j s =
          bind_leaves (Same j s) (a.cache_get (cache_key ip)) (λ cached. pure (truthy cached)) s
            (atlas.get_keeps (cache_key ip) s j) (λ cached e. atlas.get_keeps (cache_key ip) s j) in
        let kept : t.find_unique j (cached_location a ip s).1 ≡ t.find_unique j s =
          catching_leaves (Same j s) (a.cache_get (cache_key ip) >>= λ cached. pure (truthy cached))
            (λ e. pure none) s looked (λ e. looked) in
        bind_leaves (Same j s) (cached_location a ip) (on_cache a ip) s kept
          (λ o e. on_cache_keeps ip o (cached_location a ip s).1 j ∙ kept)

    -- Whatever the cache and the remote service do, the listener of a new session returns, and writes
    -- at most the location of that session, one that is not empty, and nothing to any other session.
    pub handle_session_created-Placed :
        (event : SessionCreated) (s : S)
        → (s' : S) × (handle_session_created a t event s ≡ (ok tt, s'))
          × Placed event.session_id s s'
    unfolding handle_session_created resolve
    handle_session_created-Placed event s =
        let id = event.session_id in
        let m = resolve a event.ip in
        let k = λ (location : Option Text). set_location t id (truthy location) in
        let keeps = resolve_ip_keeps (is_private_ip event.ip) event.ip s in
        elim (Result-cases (m s).0) [
          | inl (o, e) ↦
              let (s', done, wrote) = set_outcome id o (m s).1 table in
              (
                s',
                catching_from (m >>= k) (k o) (λ e. pure tt) s (m s).1
                      (bind_from m k s (pair_ext (m s) e refl))
                    ∙ done,
                after_keeping id s (m s).1 s' keeps wrote,
              )
          | inr (e, failed) ↦ (
            (m s).1,
            catching_err (m >>= k) (λ e. pure tt) s (bind_err m k s (pair_ext (m s) failed refl)),
            unplaced keeps,
          )
        ]

    -- For a private address the cache and the remote service are not asked: a session that is there
    -- becomes one of the local network, and that is all.
    pub handle_session_created-local_network :
        (event : SessionCreated) (session : PlacedSession) (s : S)
        → is_private_ip event.ip ≡ true
        → t.find_unique event.session_id s ≡ some session
        → (s' : S) × (handle_session_created a t event s ≡ (ok tt, s'))
          × Writes t event.session_id (some (record session { location = some local_network })) s s'
    unfolding handle_session_created resolve resolve_ip set_location
    handle_session_created-local_network event session s private found =
        let placing = λ (r : PlacedSession). record r { location = some local_network } in
        let id = event.session_id in
        let (s', done, writes) = table.update_found id placing session s found in
        (
          s',
          ap
                (λ b.
                  catching (resolve_ip a b event.ip >>= λ o. set_location t id (truthy o))
                    (λ e. pure tt) s)
                private
              ∙ catching_ok (t.update id placing >> pure tt) (λ e. pure tt) s
                  (bind_from (t.update id placing) (λ r. pure tt) s done),
          writes,
        )
