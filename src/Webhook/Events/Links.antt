-- ===== src/Webhook/Events/Links.antt =====
-- The user that an installation is linked to (src/github-app/github-webhook.service.ts).
use otto_handler.Prelude.{
  ◌≡◌, refl, ◌⊎◌, inl, inr, ℕ, true, Bool-cases, String, List, [], ◌∷◌, Option, none, some, arith,
  ap, ◌∙◌, if◌then◌else◌,
}
use otto_handler.Prelude.Effects.{Error, ok, throw, resolve, Env, Outcome, and_then, Reply-cases}
use otto_handler.Auth.Types.{User}
use otto_handler.Webhook.Types.{
  Account, Installation, GithubApp, Call, find_user, find_user_named, save_app, find_app, find_apps,
  all_users, Ret,
}
use otto_handler.Webhook.Events.{
  is_organization, find_account, find_sender, find_installer, app_of, updated_app, link_user,
  store_app, handle_installation_created,
}

-- The rows that were saved, newest first.
unfoldable pub saved_apps : List Call → List GithubApp
saved_apps [] = []
saved_apps (save_app app ∷ h) = app ∷ saved_apps h
saved_apps (_ ∷ h) = saved_apps h

-- The account whose owner is looked up.
abbrev pub installer : Installation → Option Account → Option Account
installer installation sender =
    if is_organization installation.account then sender else some installation.account

same_calls : {h k : List Call} → ok tt h ≡ ok tt k → k ≡ h
same_calls e = cc

never : {x : Error} {h k : List Call} → throw x h ≡ ok tt k → ⊥
never e = cc

module _ (env : Env Call Ret) (to_text : ℕ → String) where
  -- The user is the repository's answer for the id or the login of the account.
  pub data Owns (user : User) (account : Account) : Type 0 where
    by_id : (h : List Call) → env h (find_user account.id) ≡ resolve (some user) → Owns user account
    by_login :
        (h : List Call)
        → env h (find_user_named account.login) ≡ resolve (some user)
        → Owns user account

  -- The saved row is that of the installation: a new one with its id, where the repository had none for
  -- it, or else the one that it had.
  pub data IsRow (installation : Installation) (app : GithubApp) : Type 0 where
    new_row :
        (h : List Call)
        → env h (find_app (to_text installation.id)) ≡ resolve none
        → app.installation_id ≡ to_text installation.id
        → IsRow installation app
    old_row :
        (h : List Call) (old : GithubApp)
        → env h (find_app (to_text installation.id)) ≡ resolve (some old)
        → app.installation_id ≡ old.installation_id
        → IsRow installation app

  -- The saved row links the installation to a user.
  pub record Linked (installation : Installation) (sender : Option Account) (h h' : List Call)
      : Type 0 where
    pub user : User
    pub account : Account
    pub is_installer : installer installation sender ≡ some account
    pub is_owner : Owns user account
    pub app : GithubApp
    pub saved : saved_apps h' ≡ app ∷ saved_apps h
    pub for_installation : IsRow installation app
    pub for_user : app.user_id ≡ user.user_id
    pub for_account :
        (app.account_login ≡ installation.account.login)
        × (app.account_type ≡ installation.account.account_type)

  -- What a search for the owner of an account has found.
  data Searched (account : Account) (h : List Call) (o : Outcome Call (Option User)) : Type 0 where
    nobody : (k : List Call) → o ≡ ok none k → saved_apps k ≡ saved_apps h → Searched account h o
    somebody :
        (u : User) (k : List Call)
        → o ≡ ok (some u) k
        → saved_apps k ≡ saved_apps h
        → Owns u account
        → Searched account h o
    rejected : (e : Error) (k : List Call) → o ≡ throw e k → Searched account h o

  searched :
      (account : Account) (h : List Call) → Searched account h (find_account env to_text account h)
  unfolding saved_apps
  searched account h = elim (Reply-cases (env h (find_user account.id))) [
    | inr (e, f) ↦ rejected e (find_user account.id ∷ h) (rw f refl)
    | inl (some u, f) ↦ somebody u (find_user account.id ∷ h) (rw f refl) refl (by_id h f)
    | inl (none, f) ↦
        elim (Reply-cases (env (find_user account.id ∷ h) (find_user_named account.login))) [
          | inr (e, g) ↦
              rejected e (find_user_named account.login ∷ find_user account.id ∷ h) (rw (f, g) refl)
          | inl (some u, g) ↦
              somebody u (find_user_named account.login ∷ find_user account.id ∷ h) (rw (f, g) refl)
                refl (by_login _ g)
          | inl (none, g) ↦
              nobody (find_user_named account.login ∷ find_user account.id ∷ h) (rw (f, g) refl)
                refl
        ]
  ]

  -- A user that is found is linked, if the calls resolve.
  linked :
      (installation : Installation) (sender : Option Account) (account : Account) (user : User)
      (existing : Option GithubApp) (h j k h' : List Call)
      → installer installation sender ≡ some account
      → Owns user account
      → saved_apps k ≡ saved_apps h
      → env j (find_app (to_text installation.id)) ≡ resolve existing
      → store_app env to_text installation user existing k ≡ ok tt h'
      → Linked installation sender h h'
  unfolding saved_apps
  linked installation sender account user (some app) h j k h' i o s g e = record {
    user = user;
    account = account;
    is_installer = i;
    is_owner = o;
    app = updated_app env to_text installation user app;
    saved = ground (arith, s);
    for_installation = old_row j app g refl;
    for_user = refl;
    for_account = (refl, refl);
  }
  linked installation sender account user none h j k h' i o s g e = record {
    user = user;
    account = account;
    is_installer = i;
    is_owner = o;
    app = app_of env to_text installation user;
    saved = ground (arith, s);
    for_installation = new_row j g refl;
    for_user = refl;
    for_account = (refl, refl);
  }

  link_user-Linked :
      (installation : Installation) (sender : Option Account) (account : Account) (user : User)
      (h k h' : List Call)
      → installer installation sender ≡ some account
      → Owns user account
      → saved_apps k ≡ saved_apps h
      → link_user env to_text installation (some user) k ≡ ok tt h'
      → Linked installation sender h h'
  unfolding saved_apps
  link_user-Linked installation sender account user h k h' i o s e =
      let apps =
        find_apps installation.account.login installation.account.account_type user.user_id in
      let there = find_app (to_text installation.id) in
      elim (Reply-cases (env k apps)) [
        | inr (x, f) ↦ absurd (ground arith)
        | inl (found, f) ↦ elim (Reply-cases (env (apps ∷ k) there)) [
          | inr (x, g) ↦ absurd (ground arith)
          | inl (existing, g) ↦
              linked installation sender account user existing h (apps ∷ k) (there ∷ apps ∷ k) h' i
                o s g (rw (f, g) at e)
        ]
      ]

  -- What an installation by an account does once the users have been read.
  from_account :
      (installation : Installation) (sender : Option Account) (account : Account)
      (h k h' : List Call)
      → installer installation sender ≡ some account
      → saved_apps k ≡ saved_apps h
      → Searched account k (find_account env to_text account k)
      → and_then (find_account env to_text account k) (link_user env to_text installation)
        ≡ ok tt h'
      → Linked installation sender h h' ⊎ (saved_apps h' ≡ saved_apps h)
  from_account installation sender account h k h' i s (nobody k' f p) e =
      inr (ap saved_apps (same_calls (rw f at e)) ∙ p ∙ s)
  from_account installation sender account h k h' i s (somebody u k' f p o) e =
      inl (link_user-Linked installation sender account u h k' h' i o (p ∙ s) (rw f at e))
  from_account installation sender account h k h' i s (rejected x k' f) e =
      absurd (never (rw f at e))

  by_sender :
      (installation : Installation) (sender : Option Account) (h h' : List Call)
      → is_organization installation.account ≡ true
      → and_then
          (find_sender env to_text sender (all_users ∷ h))
          (link_user env to_text installation)
        ≡ ok tt h'
      → Linked installation sender h h' ⊎ (saved_apps h' ≡ saved_apps h)
  unfolding saved_apps
  by_sender installation none h h' b e = inr (ap saved_apps (same_calls e))
  by_sender installation (some sender) h h' b e =
      from_account installation (some sender) sender h (all_users ∷ h) h' (rw b refl) refl
        (searched sender (all_users ∷ h)) e

  -- The handling of a new installation, if it resolves, has saved its row, a new one with its id or the one
  -- that the repository had for that id, with the user whom the repository names for the account that
  -- installed it, by its id or its login; or it has saved nothing.
  pub handle_installation_created-Linked :
      (installation : Installation) (sender : Option Account) (h h' : List Call)
      → handle_installation_created env to_text installation sender h ≡ ok tt h'
      → Linked installation sender h h' ⊎ (saved_apps h' ≡ saved_apps h)
  unfolding handle_installation_created find_installer saved_apps
  handle_installation_created-Linked installation sender h h' e =
      elim (Reply-cases (env h all_users)) [
        | inr (x, f) ↦ absurd (ground arith)
        | inl (users, f) ↦ elim (Bool-cases (is_organization installation.account)) [
          | inr b ↦
              from_account installation sender installation.account h (all_users ∷ h) h' (rw b refl)
                refl (searched installation.account (all_users ∷ h)) (rw (f, b) at e)
          | inl b ↦ by_sender installation sender h h' b (rw (f, b) at e)
        ]
      ]
