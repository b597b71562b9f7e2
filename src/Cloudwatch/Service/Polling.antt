-- ===== src/Cloudwatch/Service/Polling.antt =====
-- The ticks of a poller (src/logs/services/cloudwatch/cloudwatch.service.ts).
use otto_handler.Prelude.{
  ◌≡◌, refl, ◌⊎◌, inl, inr, ◌<◌, Bool, true, false, Bool-cases, List, ◌∷◌, if◌then◌else◌, arith,
}
use otto_handler.Prelude.Effects.{Error, ok, Env, Clock, Outcome-cases, Reply-cases}
use otto_handler.Cloudwatch.Types.{Call, find_execution, Ret}
use otto_handler.Cloudwatch.Service.{
  Poller, failed_tick, max_retries, tick, poll_page, turned, check_complete, after_page,
  is_complete, stopped,
}

-- The timer is stopped, or the poller has failed fewer times in a row than it may.
abbrev pub Bounded : Poller → Type 0
Bounded p = (p.is_polling ≡ false) ⊎ (p.retries < max_retries)

failed_tick-Bounded : (p : Poller) (e : Error) → Bounded p → Bounded (failed_tick p e)
unfolding failed_tick
failed_tick-Bounded p e b = ground arith

module _ (env : Env Call Ret) (clock : Clock Call) where
  check_complete-Bounded :
      (p : Poller) (h : List Call)
      → Bounded p
      → (p' : Poller) × (h' : List Call) × (check_complete env clock p h ≡ ok p' h') × Bounded p'
  check_complete-Bounded p h b = elim (Reply-cases (env h (find_execution p.execution_id))) [
    | inl (x, f) ↦ elim (Bool-cases (is_complete x)) [
      | inl c ↦ (stopped p, find_execution p.execution_id ∷ h, rw (f, c) refl, inl refl)
      | inr c ↦ (p, find_execution p.execution_id ∷ h, rw (f, c) refl, b)
    ]
    | inr (e, f) ↦
        (failed_tick p e, find_execution p.execution_id ∷ h, rw f refl, failed_tick-Bounded p e b)
  ]

  tick_if-Bounded :
      (live : Bool) (p : Poller) (h : List Call)
      → Bounded p
      → (p' : Poller) × (h' : List Call) × ((if live
            then after_page env clock p (poll_page env clock p h)
            else ok p h)
          ≡ ok p' h')
        × Bounded p'
  tick_if-Bounded false p h b = (p, h, refl, b)
  tick_if-Bounded true p h b = elim (Outcome-cases (poll_page env clock p h)) [
    | inl (token, k, e) ↦
        rw e (check_complete-Bounded (turned env clock p token) k (inr (omega arith)))
    | inr (x, k, e) ↦ rw e (failed_tick p x, k, refl, failed_tick-Bounded p x b)
  ]

  -- A tick of a poller that has failed fewer than five times in a row, or whose timer is stopped,
  -- never rejects, and leaves such a poller: at the fifth failure in a row the timer stops.
  pub tick-Bounded :
      (p : Poller) (h : List Call)
      → Bounded p
      → (p' : Poller) × (h' : List Call) × (tick env clock p h ≡ ok p' h') × Bounded p'
  unfolding tick
  tick-Bounded p h b = tick_if-Bounded p.is_polling p h b
