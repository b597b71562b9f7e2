-- ===== src/EventBridge/Lambda/Ignored.antt =====
-- What becomes of an event that the function forwards (lambda/index.ts).
use otto_handler.Prelude.{◌≡◌, refl, ℕ, true, List, ◌∷◌, some, nonempty, eq_iff}
use otto_handler.Prelude.Effects.{ok, Env, Clock, resolve}
use otto_handler.Prelude.Grows.{Made, newest, older}
use otto_handler.EventBridge.Types.{Detail, Event, Call, setnx, expire, Ret}
use otto_handler.EventBridge.Dedup.{event_key, event_ttl}
use otto_handler.EventBridge.Lambda.{Setting, is_supported, handler}

module _ (env : Env Call Ret) (clock : Clock Call) (s : Setting) where
  -- Over a Redis that keeps a key once it has been set, a new event of a supported source is answered as
  -- processed, but nothing of it is processed: the check before it has marked its id as seen, and no call
  -- is made but those to Redis.
  pub handler_ignores :
      (event : Event) (d : Detail) (h : List Call)
      → s.lambda_key ≡ s.backend_key
      → nonempty s.lambda_key ≡ true
      → nonempty event.id ≡ true
      → nonempty event.source ≡ true
      → is_supported event.source ≡ true
      → event.detail ≡ some d
      → ((k : List Call) (t u : ℕ)
          → Made (setnx (event_key event.id) t) k
          → env k (setnx (event_key event.id) u) ≡ resolve 0)
      → env h (setnx (event_key event.id) (clock h)) ≡ resolve 1
      → env (setnx (event_key event.id) (clock h) ∷ h) (expire (event_key event.id) event_ttl)
        ≡ resolve tt
      → (t : ℕ) × (handler env clock s event h
          ≡ ok
              (record {
                status_code = 200;
                success = true;
                message = "Event processed successfully";
                event_id = event.id;
              })
              (setnx (event_key event.id) t
                ∷ expire (event_key event.id) event_ttl
                ∷ setnx (event_key event.id) (clock h)
                ∷ h))
  unfolding handler
  handler_ignores event d h same key id source supported has kept f g =
      let k = expire (event_key event.id) event_ttl ∷ setnx (event_key event.id) (clock h) ∷ h in
      let agrees = (eq_iff s.lambda_key s.backend_key).1 same in
      let seen =
        kept k (clock h) (clock k) (older (expire (event_key event.id) event_ttl) newest) in
      (clock k, rw (key, agrees, id, f, g, key, agrees, has, id, source, supported, seen) refl)
