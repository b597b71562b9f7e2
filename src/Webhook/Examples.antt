-- ===== src/Webhook/Examples.antt =====
-- Runs of src/github-app: the installation of the app by an organization.
use otto_handler.Prelude.{◌≡◌, refl, ◌⊎◌, true, ℕ, String, List, [], ◌∷◌, none, some}
use otto_handler.Prelude.Effects.{Env, resolve, history}
use otto_handler.Auth.Types.{User}
use otto_handler.Webhook.Types
use otto_handler.Webhook.Types.{Account, Installation, Payload, Call, Ret}
use otto_handler.Webhook.Events.{handle_installation_created}
use otto_handler.Webhook.Events.Links.{Linked, saved_apps, handle_installation_created-Linked}
use otto_handler.Webhook.Controller.{Runtime}
use otto_handler.Webhook.Controller.Signed.{Signed, Refused, handle_github_webhook-Signed}

abbrev user : User
user = record {
  user_id = "u1";
  email = "a@b";
  github_user_name = "ann";
  github_avatar_url = "";
  github_id = 5;
}

abbrev env : Env Call Ret
env h (Types.find_projects i r b) =
    resolve (record { project_id = "p1"; project_name = "site" } ∷ [])
env h (Types.count_projects r b) = resolve 1
env h (Types.find_app id) = resolve none
env h (Types.find_apps l t u) = resolve []
env h (Types.save_app app) = resolve app
env h (Types.delete_app id) = resolve tt
env h (Types.update_projects id) = resolve tt
env h Types.all_users = resolve (user ∷ [])
env h (Types.find_user id) = resolve none
env h (Types.find_user_named name) = resolve (some user)

abbrev to_text : ℕ → String
to_text n = "77"

abbrev company : Account
company = record { login = "acme"; id = 9; account_type = "Organization" }

abbrev sender : Account
sender = record { login = "ann"; id = 6; account_type = "User" }

abbrev installation : Installation
installation = record { id = 77; account = company }

abbrev calls : List Call
calls = history (handle_installation_created env to_text installation (some sender) [])

handle_installation_created-Linked_example :
    Linked env to_text installation (some sender) [] calls ⊎ (saved_apps calls ≡ saved_apps [])
unfolding handle_installation_created
handle_installation_created-Linked_example =
    handle_installation_created-Linked env to_text installation (some sender) [] calls refl

abbrev payload : Payload
payload = record {
  action = some "created";
  installation = some installation;
  repository = none;
  ref = none;
  pull_request = none;
  sender = some sender;
}

-- A runtime that signs with the key itself.
abbrev runtime : Runtime
runtime = record {
  stringify = λ p. "{}";
  hmac = λ key text. key;
  same_length = λ a b. true;
  to_text = to_text;
}

handle_github_webhook-Signed_example :
    Signed runtime (some "k") "{}" (some "sha256=k")
    ⊎ Refused env runtime (some "k") "installation" (some "sha256=k") payload []
handle_github_webhook-Signed_example =
    handle_github_webhook-Signed env runtime (some "k") "installation" (some "sha256=k") payload []
