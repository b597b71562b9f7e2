-- ===== src/Webhook/Controller/Signed.antt =====
-- Only signed webhooks are handled (src/github-app/github-webhook.controller.ts).
use otto_handler.Prelude.{
  ◌≡◌, refl, sym, ◌⊎◌, inl, inr, true, Bool-cases, String, List, Option, none, some, truthy, str_eq,
  eq_iff, or_text,
}
use otto_handler.Prelude.Effects.{throw, Error, Env}
use otto_handler.Webhook.Types.{Payload, Call, Ret}
use otto_handler.Webhook.Controller.{
  bad_request, range_error, Runtime, signature_of, handle_github_webhook,
}

-- A secret is configured, and the signature is that of the body under it.
pub record Signed (r : Runtime) (secret : Option String) (body : String) (signature : Option String)
    : Type 0 where
  pub key : String
  pub configured : secret ≡ some key
  pub is_secret : truthy secret ≡ true
  pub agrees : or_text signature "" ≡ signature_of r key body

pub data Refused (env : Env Call Ret) (r : Runtime) (secret : Option String) (event : String)
    (signature : Option String) (payload : Payload) (h : List Call) : Type 0 where
  refused :
      (e : Error)
      → handle_github_webhook env r secret event signature payload h ≡ throw e h
      → Refused env r secret event signature payload h

-- A webhook is signed under the configured secret, or it is refused before any call is made.
pub handle_github_webhook-Signed :
    (env : Env Call Ret) (r : Runtime) (secret : Option String) (event : String)
    (signature : Option String) (payload : Payload) (h : List Call)
    → Signed r secret (r.stringify payload) signature
      ⊎ Refused env r secret event signature payload h
unfolding handle_github_webhook
handle_github_webhook-Signed env r none event signature payload h =
    inr (refused (bad_request "Invalid webhook signature") refl)
handle_github_webhook-Signed env r (some key) event signature payload h =
    let body = r.stringify payload in
    let given = or_text signature "" in
    let expected = signature_of r key body in
    elim (Bool-cases (truthy (some key))) [
      | inr t ↦ inr (refused (bad_request "Invalid webhook signature") (rw t refl))
      | inl t ↦ elim (Bool-cases (r.same_length expected given)) [
        | inr l ↦ inr (refused range_error (rw (t, l) refl))
        | inl l ↦ elim (Bool-cases (str_eq expected given)) [
          | inl q ↦ inl (record {
            key = key;
            configured = refl;
            is_secret = t;
            agrees = sym ((eq_iff expected given).0 q);
          })
          | inr q ↦ inr (refused (bad_request "Invalid webhook signature") (rw (t, l, q) refl))
        ]
      ]
    ]
