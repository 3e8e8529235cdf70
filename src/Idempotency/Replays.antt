-- ===== src/Idempotency/Replays.antt =====
-- A repeated request is answered from the cache, without the handler.
use payflow_x.Prelude.{
  ℕ, ◌-◌, ◌≤◌, ◌≡◌, refl, ◌∙◌, ap, ==_refl, le→ltb, none, some, arith, if◌then◌else◌,
}
use payflow_x.Prelude.Result.{ok}
use payflow_x.Http.{Action, pure, catching_ok, bind_from, ◌>>◌}
use payflow_x.Db.{Table, IsTable}
use payflow_x.Idempotency.{
  Stored, Request, ttl_ms, remember, handle_and_remember, on_found, on_cached, intercept,
  intercept_key,
}

module _ {S : Type 0} (t : Table S Stored) (now : S → ℕ) (handle : Action S (ℕ × ℕ))
    (law : IsTable t) where
  remember_new :
      (key : ℕ) (request : Request) (answer : ℕ × ℕ) (s : S)
      → t.find_unique key s ≡ none
      → (s' : S) × (stored : Stored) × (remember t now handle key request answer s ≡ (ok tt, s'))
        × (t.find_unique key s' ≡ some stored)
        × ((stored.response, stored.status_code) ≡ answer)
        × (stored.created_at ≡ now s)
  unfolding remember
  remember_new key request answer s e =
      let row : Stored = record {
        user_id = request.user_id;
        route = request.route;
        response = answer.0;
        status_code = answer.1;
        created_at = now s;
      } in
      let (s', done, writes) = law.create_new key row s e in
      (
        s',
        row,
        catching_ok (t.create key row >> pure tt) (λ x. pure tt) s
            (bind_from (t.create key row) (λ x. pure tt) s done),
        writes key ∙ ap (λ b. if b then some row else t.find_unique key s) (==_refl key),
        refl,
        refl,
      )

  pub cached_answers :
      (key : ℕ) (request : Request) (stored : Stored) (s : S)
      → request.key ≡ some key
      → t.find_unique key s ≡ some stored
      → now s - stored.created_at ≤ ttl_ms
      → intercept t now handle request s ≡ (ok (stored.response, stored.status_code), s)
  unfolding intercept intercept_key on_found on_cached
  cached_answers key request stored s k found fresh =
      ap (λ o. intercept_key t now handle o request s) k
      ∙ ap (λ o. on_found t now handle o key request s) found
      ∙ ap (λ b. on_cached t now handle b stored key request s)
          (le→ltb ttl_ms (now s - stored.created_at) fresh)

  -- The answer to a new key, and the record of it.
  pub first_answers :
      (key : ℕ) (request : Request) (answer : ℕ × ℕ) (s s1 : S)
      → request.key ≡ some key
      → t.find_unique key s ≡ none
      → handle s ≡ (ok answer, s1)
      → t.find_unique key s1 ≡ none
      → (s2 : S) × (stored : Stored) × (intercept t now handle request s ≡ (ok answer, s2))
        × (t.find_unique key s2 ≡ some stored)
        × ((stored.response, stored.status_code) ≡ answer)
        × (stored.created_at ≡ now s1)
  unfolding intercept intercept_key on_found handle_and_remember
  first_answers key request answer s s1 k none_before handled none_after =
      let (s2, stored, done, found, same, created) =
        remember_new key request answer s1 none_after in
      let first : intercept t now handle request s ≡ (ok answer, s2) =
        ap (λ o. intercept_key t now handle o request s) k
        ∙ ap (λ o. on_found t now handle o key request s) none_before
        ∙ bind_from handle (λ a. remember t now handle key request a >> pure a) s handled
        ∙ bind_from (remember t now handle key request answer) (λ x. pure answer) s1 done in
      (s2, stored, first, found, same, created)

  -- A request with a new key whose handler answers, and leaves no record under that key, is
  -- answered the same; and any request with the same key that finds the record of it, no more than
  -- a day old, gets that answer and changes nothing.
  pub intercept_replayed :
      (key : ℕ) (request again : Request) (answer : ℕ × ℕ) (s s1 s3 : S)
      → request.key ≡ some key
      → again.key ≡ some key
      → t.find_unique key s ≡ none
      → handle s ≡ (ok answer, s1)
      → t.find_unique key s1 ≡ none
      → t.find_unique key s3 ≡ t.find_unique key (intercept t now handle request s).1
      → now s3 - now s1 ≤ ttl_ms
      → ((intercept t now handle request s).0 ≡ ok answer)
        × (intercept t now handle again s3 ≡ (ok answer, s3))
  intercept_replayed key request again answer s s1 s3 k k' none_before handled none_after kept
        fresh =
      let (s2, stored, first, found, same, created) =
        first_answers key request answer s s1 k none_before handled none_after in
      (
        ap (λ r. r.0) first,
        cached_answers key again stored s3 k' (kept ∙ ap (λ r. t.find_unique key r.1) first ∙ found)
              (ground (arith, created, fresh))
            ∙ ap (λ a. (ok a, s3)) same,
      )
