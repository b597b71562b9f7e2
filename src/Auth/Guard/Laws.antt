-- ===== src/Auth/Guard/Laws.antt =====
-- What passes the guard of src/common/guard/auth.guard.ts, and how it refuses.
use otto_handler.Prelude.{
  ◌≡◌, ◌⊎◌, inl, inr, String, List, ◌∷◌, Option, none, some, arith, str_eq, Bool-cases,
  Option-cases, eq_iff,
}
use otto_handler.Prelude.Effects.{Error, ok, throw, Env, resolve, Reply-cases}
use otto_handler.Auth.Types.{User}
use otto_handler.Auth.Guard.{
  Call, verify, find_user, Ret, Request, RequestUser, extract_token, present, request_user, denied,
  can_activate, admit, rethrow,
}

module _ (env : Env Call Ret) where
  -- A request that passes: its token verifies to the id of a stored user.
  pub record Passes (r : Request) (h : List Call) (u : RequestUser) (h' : List Call) : Type 0 where
    pub token : String
    pub carried : present (extract_token r) ≡ some token
    pub payload : Option String
    pub verified : env h (verify token) ≡ resolve payload
    pub sub : String
    pub identified : present payload ≡ some sub
    pub user : User
    pub stored : env (verify token ∷ h) (find_user sub) ≡ resolve (some user)
    pub attached : u ≡ request_user user
    pub calls : h' ≡ find_user sub ∷ verify token ∷ h

  admit-Passes :
      (token : String) (h : List Call) (u : RequestUser) (h' : List Call)
      → admit env (some token) h ≡ ok u h'
      → (payload : Option String) × (sub : String) × (user : User) × (env h (verify token)
          ≡ resolve payload)
        × (present payload ≡ some sub)
        × (env (verify token ∷ h) (find_user sub) ≡ resolve (some user))
        × (u ≡ request_user user)
        × (h' ≡ find_user sub ∷ verify token ∷ h)
  unfolding admit rethrow present
  admit-Passes token h u h' e = elim (Reply-cases (env h (verify token))) [
    | inl (payload, v) ↦ elim (Option-cases (present payload)) [
      | inl missing ↦ absurd (ground arith)
      | inr (sub, p) ↦ elim (Reply-cases (env (verify token ∷ h) (find_user sub))) [
        | inl (none, f) ↦ absurd (ground arith)
        | inl (some user, f) ↦ (payload, sub, user, v, p, f, ground arith, ground arith)
        | inr (x, f) ↦ absurd (ground arith)
      ]
    ]
    | inr (x, v) ↦ absurd (ground arith)
  ]

  -- A request passes only with a token that verifies to the id of a stored user, and the user that
  -- it is given is that one.
  pub can_activate-Passes :
      (r : Request) (h : List Call) (u : RequestUser) (h' : List Call)
      → can_activate env r h ≡ ok u h'
      → Passes r h u h'
  unfolding can_activate
  can_activate-Passes r h u h' e = elim (Option-cases (present (extract_token r))) [
    | inl missing ↦ absurd (ground arith)
    | inr (token, carried) ↦
        let (payload, sub, user, v, p, f, a, c) = admit-Passes token h u h' (rw carried at e) in
        record {
          token = token;
          carried = carried;
          payload = payload;
          verified = v;
          sub = sub;
          identified = p;
          user = user;
          stored = f;
          attached = a;
          calls = c;
        }
  ]

  -- Every refusal is the one Unauthorized error, but for a ForbiddenException of the repository.
  can_activate_refusal :
      (r : Request) (h : List Call) (x : Error) (h' : List Call)
      → can_activate env r h ≡ throw x h'
      → (x ≡ denied) ⊎ (x.name ≡ "ForbiddenException")
  unfolding can_activate
  can_activate_refusal r h x h' e = elim (Bool-cases (str_eq x.name "ForbiddenException")) [
    | inl forbidden ↦ inr ((eq_iff _ _).0 forbidden)
    | inr other ↦ inl (ground arith)
  ]
