-- ===== src/Lora/Wait.antt =====
-- The wait for the AUX pin of the radio module, `waitAuxReady` of ESP_AKS/lib/LoraLink/LoraLink.cpp, seen
-- through a HAL that keeps the calls.
use tufan_aks.Base.{
  ℕ, zero, suc, ◌+◌, ◌≡◌, ◌≤◌, ◌<◌, refl, arith, Bool, true, false, ltb, ◌⊎◌, inl, inr, List, [],
  ◌∷◌, ◌++◌, some, Bool-cases, ltb→lt, ap, ◌∙◌, ◌-◌, ◌%◌,
}
use tufan_aks.Base.Words.{sub64, u32_mod, u64_mod}
use tufan_aks.Lora.{LoraHal, UartRead, IsClocked, wait_aux_from, wait_aux_ready}

pub data Call : Type 0 where
  pins : ℕ → ℕ → Call
  flushed : Call
  written : List ℕ → Call
  answered : UartRead → Call

-- A HAL that keeps the calls that reach the module, the oldest first.
abbrev pub traced : {S : Type 0} → LoraHal S → LoraHal (S × List Call)
traced hal = record {
  set_mode_pins = λ m0 m1 (s, log). (hal.set_mode_pins m0 m1 s, log ++ (pins m0 m1 ∷ []));
  is_aux_ready = λ (s, log). ((hal.is_aux_ready s).0, ((hal.is_aux_ready s).1, log));
  uart_flush = λ (s, log). (hal.uart_flush s, log ++ (flushed ∷ []));
  uart_write = λ bytes (s, log). (hal.uart_write bytes s, log ++ (written bytes ∷ []));
  uart_read = λ len timeout (s, log).
      let r = hal.uart_read len timeout s in (r.0, (r.1, log ++ (answered (r.0) ∷ [])));
  delay_ms = λ ms (s, log). (hal.delay_ms ms s, log);
  now_ms = λ (s, log). hal.now_ms s;
}

-- The clock's reading, as the milliseconds since the start of a wait decide it.
elapsed :
    (now t0 c0 e : ℕ)
    → now ≡ (c0 + e) % u64_mod
    → t0 ≡ c0 % u64_mod
    → e < u64_mod
    → sub64 now t0 ≡ e
elapsed now t0 c0 e hn ht he = omega arith

module _ {S : Type 0} (hal : LoraHal S) (k : IsClocked hal) (c0 timeout : ℕ)
    (short : timeout < u32_mod) where
  -- A wait that ends, with no call that reaches the module.
  abbrev Quiet : ℕ → S → List Call → Type 0
  Quiet turns s log =
      (p : Bool × S) × (wait_aux_from (traced hal) turns (c0 % u64_mod) timeout (s, log)
        ≡ some (p.0, (p.1, log)))

  wait_done :
      (turns : ℕ) (s : S) (log : List Call)
      → ltb (sub64 (hal.now_ms s) (c0 % u64_mod)) timeout ≡ false
      → Quiet (suc turns) s log
  unfolding wait_aux_from
  wait_done turns s log e = ((false, s), rw (e, wait_aux_from) refl)

  wait_ready :
      (turns : ℕ) (s : S) (log : List Call)
      → ltb (sub64 (hal.now_ms s) (c0 % u64_mod)) timeout ≡ true
      → (hal.is_aux_ready s).0 ≡ true
      → Quiet (suc turns) s log
  unfolding wait_aux_from
  wait_ready turns s log e a = ((true, (hal.is_aux_ready s).1), rw (e, a, wait_aux_from) refl)

  wait_more :
      (turns : ℕ) (s : S) (log : List Call)
      → ltb (sub64 (hal.now_ms s) (c0 % u64_mod)) timeout ≡ true
      → (hal.is_aux_ready s).0 ≡ false
      → Quiet turns (hal.delay_ms 10 (hal.is_aux_ready s).1) log
      → Quiet (suc turns) s log
  unfolding wait_aux_from
  wait_more turns s log e a (p, h) = (p, rw (e, a, wait_aux_from) h)

  -- The first turn, e milliseconds after the start of the wait, from what the rest of the turns do.
  wait_turn :
      (turns e : ℕ) (s : S) (log : List Call)
      → k.clock s ≡ c0 + e
      → e < u64_mod
      → timeout + 1 ≤ e + suc turns
      → ((e' : ℕ) (s' : S)
          → k.clock s' ≡ c0 + e'
          → e' < u64_mod
          → timeout + 1 ≤ e' + turns
          → 0 < turns
          → Quiet turns s' log)
      → Quiet (suc turns) s log
  wait_turn turns e s log c he ht later = by_clock (Bool-cases (ltb e timeout))
    where
      here : sub64 (hal.now_ms s) (c0 % u64_mod) ≡ e
      here =
          elapsed (hal.now_ms s) (c0 % u64_mod) c0 e (k.now_reads s ∙ ap (λ t. t % u64_mod) c) refl
            he

      polled : S
      polled = (hal.is_aux_ready s).1

      -- The next turn starts e' milliseconds after the start of the wait.
      again :
          (e' : ℕ)
          → e < timeout
          → k.clock (hal.delay_ms 10 polled) ≡ c0 + e'
          → Quiet turns (hal.delay_ms 10 polled) log
      again e' lt at =
          let a = k.aux_later s in
          let b = k.aux_soon s in
          let d = k.delay_later polled in
          let f = k.delay_soon polled in
          let g = k.longest_short in
          later e' (hal.delay_ms 10 polled) at (omega arith) (omega arith) (omega arith)

      by_answer :
          ltb e timeout ≡ true
          → ((hal.is_aux_ready s).0 ≡ true) ⊎ ((hal.is_aux_ready s).0 ≡ false)
          → Quiet (suc turns) s log
      by_answer lt (inl a) = wait_ready turns s log (ap (λ t. ltb t timeout) here ∙ lt) a
      by_answer lt (inr a) = wait_more turns s log (ap (λ t. ltb t timeout) here ∙ lt) a (
          again (k.clock (hal.delay_ms 10 polled) - c0) (ltb→lt e timeout lt)
            (let b = k.aux_later s in let d = k.delay_later polled in omega arith))

      by_clock : (ltb e timeout ≡ true) ⊎ (ltb e timeout ≡ false) → Quiet (suc turns) s log
      by_clock (inl lt) = by_answer lt (Bool-cases (hal.is_aux_ready s).0)
      by_clock (inr ge) = wait_done turns s log (ap (λ t. ltb t timeout) here ∙ ge)

  wait-Quiet :
      (turns e : ℕ) (s : S) (log : List Call)
      → k.clock s ≡ c0 + e
      → e < u64_mod
      → timeout + 1 ≤ e + turns
      → 0 < turns
      → Quiet turns s log
  wait-Quiet zero e s log c he ht h = absurd (omega arith)
  wait-Quiet (suc turns) e s log c he ht h =
      wait_turn turns e s log c he ht
        λ e' s' c' he' ht' h'. wait-Quiet turns e' s' log c' he' ht' h'

module _ {S : Type 0} (hal : LoraHal S) (k : IsClocked hal) where
  -- A wait ends within its turns, and none of its calls reaches the module.
  pub wait_ends :
      (timeout : ℕ) (s : S) (log : List Call)
      → timeout < u32_mod
      → (p : Bool × S) × (wait_aux_ready (traced hal) timeout (s, log) ≡ some (p.0, (p.1, log)))
  unfolding wait_aux_ready
  wait_ends timeout s log short =
      let w =
        wait-Quiet hal k (k.clock s) timeout short (timeout + 1) 0 s log (omega arith) (omega arith)
          (omega arith) (omega arith) in
      (w.0, rw (k.now_reads s) (w.1))
