-- ===== src/Cloudwatch/Storage/Atomic.antt =====
-- What a database keeps of the calls of `saveLogs`
-- (src/logs/services/log-storage/log-storage.service.ts).
use otto_handler.Prelude.{◌≡◌, refl, ◌⊎◌, inl, inr, List, [], ◌∷◌, ◌++◌, append-nil}
use otto_handler.Prelude.Effects.{
  Error, Outcome, Reply, ok, throw, Env, Clock, resolve, reject, Reply-cases, after, and_then, call,
  fail,
}
use otto_handler.Cloudwatch.Types.{
  LogEvent, Call, connect, begin, commit, rollback, release, save_rows, Ret,
}
use otto_handler.Cloudwatch.Storage.{save_logs}

abbrev if_resolved : {A B : Type 0} → Reply A → B → B → B
if_resolved (resolve _) b _ = b
if_resolved (reject _) _ c = c

module _ (env : Env Call Ret) (clock : Clock Call) where
  -- The rows of the transaction under way: those saved since it began.
  unfoldable pub pending : List Call → List LogEvent
  pending [] = []
  pending (begin ∷ h) = []
  pending (commit ∷ h) = []
  pending (rollback ∷ h) = []
  pending (save_rows rows ∷ h) =
      let rest = pending h in if_resolved (env h (save_rows rows)) (rows ++ rest) rest
  pending (_ ∷ h) = pending h

  -- The rows that are in the table, newest first: those of the transactions whose commit resolved.
  unfoldable pub stored : List Call → List LogEvent
  unfolding pending
  stored [] = []
  stored (commit ∷ h) = let rest = stored h in if_resolved (env h commit) (pending h ++ rest) rest
  stored (_ ∷ h) = stored h

  -- The ways in which a save can end.
  pub data Settled (logs : List LogEvent) (h : List Call) : Outcome Call (Unit {0}) → Type 0 where
    done : (k : List Call) → stored k ≡ logs ++ stored h → Settled logs h (ok tt (release ∷ k))
    not_begun :
        (e : Error) (k : List Call)
        → (k ≡ connect ∷ h) ⊎ (k ≡ begin ∷ connect ∷ h)
        → stored k ≡ stored h
        → Settled logs h (throw e k)
    taken_back :
        (e : Error) (k : List Call)
        → stored k ≡ stored h
        → Settled logs h (throw e (release ∷ rollback ∷ k))
    not_released :
        (e : Error) (k : List Call)
        → env k release ≡ reject e
        → stored k ≡ logs ++ stored h
        → Settled logs h (throw e (release ∷ k))

  -- The end of a transaction that has failed.
  rolled_back-Settled :
      (logs : List LogEvent) (h : List Call) (e : Error) (k : List Call)
      → stored k ≡ stored h
      → Settled logs h
          (after (and_then (call env rollback k) (λ _. fail {A = Unit {0}} e)) (call env release))
  rolled_back-Settled logs h e k s = elim (Reply-cases (env k rollback)) [
    | inl (u, f) ↦ elim (Reply-cases (env (rollback ∷ k) release)) [
      | inl (v, g) ↦ rw (f, g) (taken_back e k s)
      | inr (x, g) ↦ rw (f, g) (taken_back x k s)
    ]
    | inr (x, f) ↦ elim (Reply-cases (env (rollback ∷ k) release)) [
      | inl (v, g) ↦ rw (f, g) (taken_back x k s)
      | inr (y, g) ↦ rw (f, g) (taken_back y k s)
    ]
  ]

  -- The end of a transaction that is committed.
  committed-Settled :
      (logs : List LogEvent) (h k : List Call)
      → stored k ≡ logs ++ stored h
      → Settled logs h (after {Call = Call} {A = Unit {0}} (ok tt k) (call env release))
  committed-Settled logs h k s = elim (Reply-cases (env k release)) [
    | inl (u, f) ↦ rw f (done k s)
    | inr (x, f) ↦ rw f (not_released x k f s)
  ]

  -- A save of logs puts all of them in the table or none, whatever the database answers: all where it
  -- resolves, and where it rejects because the connection could not be released after the commit; none
  -- where it rejects for another reason, and then a transaction that had begun was told to roll back. What
  -- was begun is released last.
  pub save_logs-Settled :
      (log : LogEvent) (logs : List LogEvent) (h : List Call)
      → Settled (log ∷ logs) h (save_logs env clock (log ∷ logs) h)
  unfolding save_logs stored
  save_logs-Settled log logs h =
      let opened = connect ∷ h in
      let begun = begin ∷ opened in
      let saved = save_rows (log ∷ logs) ∷ begun in
      elim (Reply-cases (env h connect)) [
        | inr (e, a) ↦ rw a (not_begun e opened (inl refl) refl)
        | inl (u, a) ↦ elim (Reply-cases (env opened begin)) [
          | inr (e, b) ↦ rw (a, b) (not_begun e begun (inr refl) refl)
          | inl (v, b) ↦ elim (Reply-cases (env begun (save_rows (log ∷ logs)))) [
            | inr (e, c) ↦ rw (a, b, c) (rolled_back-Settled (log ∷ logs) h e saved refl)
            | inl (w, c) ↦ elim (Reply-cases (env saved commit)) [
              | inr (e, d) ↦
                  rw (a, b, c, d)
                    (rolled_back-Settled (log ∷ logs) h e (commit ∷ saved) (rw d refl))
              | inl (x, d) ↦
                  rw (a, b, c, d)
                    (committed-Settled (log ∷ logs) h (commit ∷ saved) (rw (d, c, append-nil) refl))
            ]
          ]
        ]
      ]
