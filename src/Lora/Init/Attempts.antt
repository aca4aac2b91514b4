-- ===== src/Lora/Init/Attempts.antt =====
-- How the set-up of the radio's UART ends, the loop of `EspLoraHal::begin` of ESP_AKS/src/main.cpp.
use tufan_aks.Base.{
  ℕ, zero, suc, ◌+◌, ◌≡◌, ◌<◌, refl, arith, Bool, true, false, ◌⊎◌, inl, inr, List, [], ◌∷◌, ◌++◌,
  some, replicate, Bool-cases, ap, ap₂, ◌∙◌,
}
use tufan_aks.Base.Int.{pos}
use tufan_aks.Lora.Init.{
  init_loop, max_init_attempts, uart_init_retry_decision, give_up_disabled, retry,
}

-- An attempt that keeps its answer in a log, the oldest first.
abbrev pub counted : {S : Type 0} → (S → Bool × S) → S × List Bool → Bool × (S × List Bool)
counted try_once (s, log) = ((try_once s).0, ((try_once s).1, log ++ ((try_once s).0 ∷ [])))

abbrev pub pause_counted : {S : Type 0} → (S → S) → S × List Bool → S × List Bool
pause_counted pause (s, log) = (pause s, log)

-- How the loop ends: at the first success, or after the last attempt with none.
abbrev pub Ended : Bool → List Bool → Type 0
Ended ok log =
    ((ok ≡ true) × (n : ℕ) × (n < max_init_attempts) × (log ≡ replicate n false ++ (true ∷ [])))
    ⊎ ((ok ≡ false) × (log ≡ replicate max_init_attempts false))

replicate_snoc : (n : ℕ) → replicate n false ++ (false ∷ []) ≡ replicate (suc n) false
replicate_snoc zero = refl
replicate_snoc (suc n) = ap (λ l. false ∷ l) (replicate_snoc n)

decision_early :
    (n : ℕ)
    → n + 1 < max_init_attempts
    → uart_init_retry_decision (pos (n + 1)) (pos max_init_attempts) ≡ retry
unfolding uart_init_retry_decision
decision_early n h = ground arith

decision_late :
    (n : ℕ)
    → n + 1 ≡ max_init_attempts
    → uart_init_retry_decision (pos (n + 1)) (pos max_init_attempts) ≡ give_up_disabled
unfolding uart_init_retry_decision
decision_late n h = ground arith

module _ {S : Type 0} (try_once : S → Bool × S) (pause : S → S) where
  -- The loop from n failures on.
  abbrev Ends : ℕ → ℕ → S → Type 0
  Ends rounds n s =
      (ok : Bool) × (s' : S) × (log : List Bool) × (init_loop (counted try_once)
          (pause_counted pause) rounds n (s, replicate n false)
        ≡ some (ok, (s', log)))
      × Ended ok log

  Ends-well :
      (rounds n : ℕ) (s : S) → (try_once s).0 ≡ true → n < max_init_attempts → Ends (suc rounds) n s
  unfolding init_loop
  Ends-well rounds n s e lt = (
    true,
    (try_once s).1,
    replicate n false ++ (true ∷ []),
    rw (e, init_loop) (ap (λ b. some (true, ((try_once s).1, replicate n false ++ (b ∷ [])))) e),
    inl (refl, n, lt, refl),
  )

  Ends-late :
      (rounds n : ℕ) (s : S)
      → (try_once s).0 ≡ false
      → n + 1 ≡ max_init_attempts
      → Ends (suc rounds) n s
  unfolding init_loop
  Ends-late rounds n s e last = (
    false,
    (try_once s).1,
    replicate max_init_attempts false,
    rw (e, decision_late n last, init_loop)
        (ap (λ b. some (false, ((try_once s).1, replicate n false ++ (b ∷ [])))) e
          ∙ ap (λ l. some (false, ((try_once s).1, l)))
              (replicate_snoc n
                ∙ ap (λ m. replicate m false)
                    (let m : suc n ≡ max_init_attempts = omega arith in m))),
    inr (refl, refl),
  )

  Ends-again :
      (rounds n : ℕ) (s : S)
      → (try_once s).0 ≡ false
      → n + 1 < max_init_attempts
      → Ends rounds (suc n) (pause (try_once s).1)
      → Ends (suc rounds) n s
  unfolding init_loop
  Ends-again rounds n s e lt (ok, s', log, h, d) = (
    ok,
    s',
    log,
    rw (e, decision_early n lt, init_loop)
        (ap₂
            (λ m l.
              init_loop (counted try_once) (pause_counted pause) rounds m (pause (try_once s).1, l))
            (let m : n + 1 ≡ suc n = omega arith in m)
            (ap (λ b. replicate n false ++ (b ∷ [])) e ∙ replicate_snoc n)
          ∙ h),
    d,
  )

  -- One round, from what the rest of the rounds do.
  Ends-round :
      (rounds n : ℕ) (s : S)
      → n + suc rounds ≡ max_init_attempts
      → (n + 1 < max_init_attempts → Ends rounds (suc n) (pause (try_once s).1))
      → Ends (suc rounds) n s
  Ends-round rounds n s e later = by_answer (Bool-cases (try_once s).0)
    where
      by_count :
          (try_once s).0 ≡ false
          → (n + 1 < max_init_attempts) ⊎ (n + 1 ≡ max_init_attempts)
          → Ends (suc rounds) n s
      by_count a (inl lt) = Ends-again rounds n s a lt (later lt)
      by_count a (inr last) = Ends-late rounds n s a last

      by_answer : ((try_once s).0 ≡ true) ⊎ ((try_once s).0 ≡ false) → Ends (suc rounds) n s
      by_answer (inl a) = Ends-well rounds n s a (omega arith)
      by_answer (inr a) = by_count a (ground arith)

  ends : (rounds n : ℕ) (s : S) → n + rounds ≡ max_init_attempts → 0 < rounds → Ends rounds n s
  ends zero n s e h = absurd (omega arith)
  ends (suc rounds) n s e h =
      Ends-round rounds n s e
        (λ lt. ends rounds (suc n) (pause (try_once s).1) (omega arith) (omega arith))

  -- With any driver, the set-up of the UART ends within five attempts: with success at the first that
  -- succeeds, and without it exactly after five failures in a row.
  pub init_loop-Ended :
      (s : S)
      → (ok : Bool) × (s' : S) × (log : List Bool) × (init_loop
            (counted try_once)
            (pause_counted pause)
            max_init_attempts
            0
            (s, [])
          ≡ some (ok, (s', log)))
        × Ended ok log
  init_loop-Ended s = ends 5 0 s (omega arith) (omega arith)
