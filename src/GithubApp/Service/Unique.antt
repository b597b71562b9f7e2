-- ===== src/GithubApp/Service/Unique.antt =====
-- The repositories of a user, each once (src/github-app/github-app.service.ts).
use otto_handler.Prelude.{
  String, ◌≡◌, ◌≢◌, refl, ap, sym, ◌∙◌, ◌<◌, ℕ, suc, Bool, true, false, Bool-cases, inl, inr, List,
  [], ◌∷◌, ◌++◌, append_assoc, length, some, ◌==◌, if◌then◌else◌, arith, length-append,
}
use otto_handler.Prelude.Effects.{ok, resolve, Outcome-cases, Env}
use otto_handler.GithubApp.Types.{Repository, GithubApp, Setting, Call, find_apps, Ret}
use otto_handler.GithubApp.Service.{
  find_index, filter_from, unique_repositories, get_installation_repositories, read_all,
  get_user_repositories,
}

-- A repository with the id is in the list.
unfoldable pub has : ℕ → List Repository → Bool
has id [] = false
has id (r ∷ rs) = if r.id == id then true else has id rs

-- No two repositories of the list have the same id.
unfoldable pub distinct : List Repository → Bool
distinct [] = true
distinct (r ∷ rs) = if has r.id rs then false else distinct rs

-- The repositories whose id does not stand in the list before.
unfoldable pub firsts : List Repository → List Repository → List Repository
firsts before [] = []
firsts before (r ∷ rs) =
    let rest = firsts (before ++ r ∷ []) rs in if has r.id before then rest else r ∷ rest

find_index-new :
    (before rest : List Repository) (r : Repository)
    → has r.id before ≡ false
    → find_index r.id (before ++ r ∷ rest) ≡ some (length before)
unfolding has find_index
find_index-new [] rest r e = ground arith
find_index-new (b ∷ before) rest r e = elim (Bool-cases (b.id == r.id)) [
  | inl t ↦ let d = rw t at e in absurd (ground arith)
  | inr f ↦ rw (f, find_index-new before rest r (rw f at e)) refl
]

find_index-old :
    (before rest : List Repository) (id : ℕ)
    → has id before ≡ true
    → (n : ℕ) × (find_index id (before ++ rest) ≡ some n) × (n < length before)
unfolding has find_index
find_index-old [] rest id e = absurd (ground arith)
find_index-old (b ∷ before) rest id e = elim (Bool-cases (b.id == id)) [
  | inl t ↦ (0, rw t refl, omega arith)
  | inr f ↦
      let (n, d, l) = find_index-old before rest id (rw f at e) in
      (suc n, rw (f, d) refl, omega arith)
]

eq_self : (n : ℕ) → (n == n) ≡ true
eq_self n = ground arith

ne_of_lt : (m n : ℕ) → n < m → (m == n) ≡ false
ne_of_lt m n l = ground arith

length-snoc :
    (before : List Repository) (r : Repository) → length (before ++ r ∷ []) ≡ suc (length before)
length-snoc before r = omega (arith, length-append before (r ∷ []))

-- The filter keeps what stands in the list for the first time.
filter_from-firsts :
    (before rs : List Repository) → filter_from (before ++ rs) (length before) rs ≡ firsts before rs
unfolding filter_from firsts
filter_from-firsts before [] = refl
filter_from-firsts before (r ∷ rs) =
    let rest : filter_from (before ++ r ∷ rs) (suc (length before)) rs
        ≡ firsts (before ++ r ∷ []) rs =
      ap (λ self. filter_from self (suc (length before)) rs) (sym (append_assoc before (r ∷ []) rs))
      ∙ ap (λ n. filter_from ((before ++ r ∷ []) ++ rs) n rs) (sym (length-snoc before r))
      ∙ filter_from-firsts (before ++ r ∷ []) rs in
    elim (Bool-cases (has r.id before)) [
      | inl old ↦
          let (n, d, l) = find_index-old before (r ∷ rs) r.id old in
          rw (d, ne_of_lt (length before) n l, rest, old) refl
      | inr new ↦ rw (find_index-new before rs r new, eq_self (length before), rest, new) refl
    ]

has-snoc_old :
    (before : List Repository) (r : Repository) (id : ℕ)
    → has id before ≡ true
    → has id (before ++ r ∷ []) ≡ true
unfolding has
has-snoc_old [] r id e = absurd (ground arith)
has-snoc_old (b ∷ before) r id e = ground (arith, has-snoc_old before r id)

has-snoc_new :
    (before : List Repository) (r : Repository) (id : ℕ)
    → (r.id == id) ≡ true
    → has id (before ++ r ∷ []) ≡ true
unfolding has
has-snoc_new [] r id e = rw e refl
has-snoc_new (b ∷ before) r id e = ground (arith, has-snoc_new before r id)

has-snoc_other :
    (before : List Repository) (r : Repository) (id : ℕ)
    → has id before ≡ false
    → (r.id == id) ≡ false
    → has id (before ++ r ∷ []) ≡ false
unfolding has
has-snoc_other [] r id e f = rw f refl
has-snoc_other (b ∷ before) r id e f = ground (arith, has-snoc_other before r id)

same_id : (m n : ℕ) → (m == n) ≡ true → m ≡ n
same_id m n e = ground arith

true-ne-false : true ≢ false
true-ne-false e = cc

has-firsts_old :
    (before rs : List Repository) (id : ℕ)
    → has id before ≡ true
    → has id (firsts before rs) ≡ false
unfolding has firsts
has-firsts_old before [] id e = refl
has-firsts_old before (r ∷ rs) id e =
    let rest = has-firsts_old (before ++ r ∷ []) rs id (has-snoc_old before r id e) in
    elim (Bool-cases (has r.id before)) [
      | inl old ↦ rw (old, rest) refl
      | inr new ↦ elim (Bool-cases (r.id == id)) [
        | inl same ↦
            absurd
              (true-ne-false (sym e ∙ ap (λ n. has n before) (sym (same_id r.id id same)) ∙ new))
        | inr other ↦ rw (new, other, rest) refl
      ]
    ]

has-firsts_new :
    (before rs : List Repository) (id : ℕ)
    → has id before ≡ false
    → has id (firsts before rs) ≡ has id rs
unfolding has firsts
has-firsts_new before [] id e = refl
has-firsts_new before (r ∷ rs) id e = elim (Bool-cases (r.id == id)) [
  | inl same ↦ rw (ap (λ n. has n before) (same_id r.id id same) ∙ e, same) refl
  | inr other ↦
      let rest = has-firsts_new (before ++ r ∷ []) rs id (has-snoc_other before r id e other) in
      elim (Bool-cases (has r.id before)) [
        | inl old ↦ rw (old, other, rest) refl
        | inr new ↦ rw (new, other, rest) refl
      ]
]

distinct-firsts : (before rs : List Repository) → distinct (firsts before rs) ≡ true
unfolding distinct firsts
distinct-firsts before [] = refl
distinct-firsts before (r ∷ rs) =
    let rest = distinct-firsts (before ++ r ∷ []) rs in
    let gone =
      has-firsts_old (before ++ r ∷ []) rs r.id (has-snoc_new before r r.id (eq_self r.id)) in
    elim (Bool-cases (has r.id before)) [
      | inl old ↦ rw (old, rest) refl
      | inr new ↦ rw (new, gone, rest) refl
    ]

-- Each repository stands once in the list, by its id, and none is lost.
pub unique_repositories-distinct :
    (rs : List Repository) (id : ℕ)
    → (distinct (unique_repositories rs) ≡ true) × (has id (unique_repositories rs) ≡ has id rs)
unfolding unique_repositories has
unique_repositories-distinct rs id = (
  rw (filter_from-firsts [] rs) (distinct-firsts [] rs),
  rw (filter_from-firsts [] rs) (has-firsts_new [] rs id refl),
)

module _ (env : Env Call Ret) (s : Setting) where
  read_all_resolves :
      (apps : List GithubApp) (h : List Call)
      → (rs : List Repository) × (k : List Call) × (read_all env s apps h ≡ ok rs k)
  unfolding read_all
  read_all_resolves [] h = ([], h, refl)
  read_all_resolves (app ∷ apps) h =
      elim (Outcome-cases (get_installation_repositories env s app.installation_id h)) [
        | inl (rs, k, e) ↦
            let (more, j, d) = read_all_resolves apps k in (rs ++ more, j, rw (e, d) refl)
        | inr (x, k, e) ↦ let (more, j, d) = read_all_resolves apps k in (more, j, rw (e, d) refl)
      ]

  -- The repositories of a user whose installations can be found are given, each once, whichever
  -- installations cannot be read.
  get_user_repositories_resolves :
      (user : String) (h : List Call) (apps : List GithubApp)
      → env h (find_apps user) ≡ resolve apps
      → (rs : List Repository) × (k : List Call) × (get_user_repositories env s user h ≡ ok rs k)
        × (distinct rs ≡ true)
  unfolding get_user_repositories
  get_user_repositories_resolves user h apps f =
      let (rs, k, e) = read_all_resolves apps (find_apps user ∷ h) in
      (unique_repositories rs, k, rw (f, e) refl, (unique_repositories-distinct rs 0).0)
