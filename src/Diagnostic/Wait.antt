-- ===== src/Diagnostic/Wait.antt =====
-- The wait for the AUX pin in ESP_AKS/src/e22_diagnostic.cpp, on a clock of 32-bit ticks, seen through a port that
-- keeps the calls that reach the module.
use tufan_aks.Base.{
  ℕ, zero, suc, ◌+◌, ◌-◌, ◌%◌, ◌≡◌, ◌≤◌, ◌<◌, refl, arith, Bool, true, false, ltb, ◌==◌, inl, inr,
  List, [], ◌∷◌, ◌++◌, some, Bool-cases, ltb→lt, ap, ◌∙◌,
}
use tufan_aks.Base.Words.{sub32, u32_mod}
use tufan_aks.Diagnostic.{DiagPort, wait_from, wait_aux}

pub data DiagCall : Type 0 where
  level : ℕ → ℕ → DiagCall
  written : List ℕ → DiagCall

-- A port that keeps the levels that are set and the bytes that are written, the oldest first.
abbrev pub traced : {S : Type 0} → DiagPort S → DiagPort (S × List DiagCall)
traced port = record {
  config_mode_pins = λ (s, log). ((port.config_mode_pins s).0, ((port.config_mode_pins s).1, log));
  config_aux_pin = λ (s, log). ((port.config_aux_pin s).0, ((port.config_aux_pin s).1, log));
  set_level = λ pin lvl (s, log). (port.set_level pin lvl s, log ++ (level pin lvl ∷ []));
  aux_level = λ (s, log). ((port.aux_level s).0, ((port.aux_level s).1, log));
  param_config = λ (s, log). (port.param_config s, log);
  set_pin = λ (s, log). (port.set_pin s, log);
  driver_install = λ (s, log). (port.driver_install s, log);
  driver_delete = λ (s, log). (port.driver_delete s, log);
  uart_flush = λ (s, log). (port.uart_flush s, log);
  uart_write = λ bytes (s, log). (port.uart_write bytes s, log ++ (written bytes ∷ []));
  uart_read = λ len timeout (s, log). let r = port.uart_read len timeout s in (r.0, (r.1, log));
  tick_count = λ (s, log). port.tick_count s;
  delay = λ ticks (s, log). (port.delay ticks s, log);
}

module _ {S : Type 0} (port : DiagPort S) (ms_to_ticks : ℕ → ℕ) where
  -- What a wait relies on: the count is the clock modulo 2^32, polling does not set it back, the delay between two
  -- polls moves it on, no call takes an age, and the time-out is short of a turn of the count.
  pub record IsClocked : Type 0 where
    pub clock : S → ℕ
    pub longest : ℕ
    pub longest_short : longest < 1073741824  -- 2^30
    pub timeout_short : ms_to_ticks 500 < 1073741824
    pub count_reads : (s : S) → port.tick_count s ≡ clock s % u32_mod
    pub aux_later : (s : S) → clock s ≤ clock (port.aux_level s).1
    pub aux_soon : (s : S) → clock (port.aux_level s).1 ≤ clock s + longest
    pub delay_later : (s : S) → clock s < clock (port.delay (ms_to_ticks 10) s)
    pub delay_soon : (s : S) → clock (port.delay (ms_to_ticks 10) s) ≤ clock s + longest

-- The count, as the ticks since the start of a wait decide it.
elapsed :
    (now t0 c0 e : ℕ)
    → now ≡ (c0 + e) % u32_mod
    → t0 ≡ c0 % u32_mod
    → e < u32_mod
    → sub32 now t0 ≡ e
elapsed now t0 c0 e hn ht he = omega arith

module _ {S : Type 0} (port : DiagPort S) (ms_to_ticks : ℕ → ℕ) (k : IsClocked port ms_to_ticks)
    (c0 timeout : ℕ) (short : timeout < 1073741824) where
  -- A wait that ends, with no call that reaches the module.
  abbrev Quiet : ℕ → S → List DiagCall → Type 0
  Quiet turns s log =
      (p : Bool × S) × (wait_from (traced port) ms_to_ticks turns (c0 % u32_mod) timeout (s, log)
        ≡ some (p.0, (p.1, log)))

  -- What a turn of the wait does, by what the clock and the pin say.
  wait_done :
      (turns : ℕ) (s : S) (log : List DiagCall)
      → ltb (sub32 (port.tick_count s) (c0 % u32_mod)) timeout ≡ false
      → Quiet (suc turns) s log
  unfolding wait_from
  wait_done turns s log e = ((false, s), rw (e, wait_from) refl)

  wait_ready :
      (turns : ℕ) (s : S) (log : List DiagCall)
      → ltb (sub32 (port.tick_count s) (c0 % u32_mod)) timeout ≡ true
      → ((port.aux_level s).0 == 1) ≡ true
      → Quiet (suc turns) s log
  unfolding wait_from
  wait_ready turns s log e a = ((true, (port.aux_level s).1), rw (e, a, wait_from) refl)

  wait_more :
      (turns : ℕ) (s : S) (log : List DiagCall)
      → ltb (sub32 (port.tick_count s) (c0 % u32_mod)) timeout ≡ true
      → ((port.aux_level s).0 == 1) ≡ false
      → Quiet turns (port.delay (ms_to_ticks 10) (port.aux_level s).1) log
      → Quiet (suc turns) s log
  unfolding wait_from
  wait_more turns s log e a (p, h) = (p, rw (e, a, wait_from) h)

  -- The wait from its turn at e ticks after its start, with a turn left for each tick that is left.
  wait-Quiet :
      (turns e : ℕ) (s : S) (log : List DiagCall)
      → k.clock s ≡ c0 + e
      → e < u32_mod
      → timeout + 1 ≤ e + turns
      → 0 < turns
      → Quiet turns s log
  wait-Quiet zero e s log c he ht h = absurd (omega arith)
  wait-Quiet (suc turns) e s log c he ht h =
      let here =
        elapsed (port.tick_count s) (c0 % u32_mod) c0 e (k.count_reads s ∙ ap (λ t. t % u32_mod) c)
          refl he in
      let polled = (port.aux_level s).1 in
      let next = port.delay (ms_to_ticks 10) polled in
      let a = k.aux_later s in
      let b = k.aux_soon s in
      let d = k.delay_later polled in
      let f = k.delay_soon polled in
      let g = k.longest_short in
      elim (Bool-cases (ltb e timeout)) [
        | inr ge ↦ wait_done turns s log (ap (λ t. ltb t timeout) here ∙ ge)
        | inl lt ↦
            let due = ltb→lt e timeout lt in
            elim (Bool-cases ((port.aux_level s).0 == 1)) [
              | inl ready ↦ wait_ready turns s log (ap (λ t. ltb t timeout) here ∙ lt) ready
              | inr busy ↦ wait_more turns s log (ap (λ t. ltb t timeout) here ∙ lt) busy (
                  wait-Quiet turns (k.clock next - c0) next log (omega arith) (omega arith)
                    (omega arith) (omega arith))
            ]
      ]

module _ {S : Type 0} (port : DiagPort S) (ms_to_ticks : ℕ → ℕ)
    (k : IsClocked port ms_to_ticks) where
  -- A wait ends within its turns, and none of its calls reaches the module.
  pub wait_ends :
      (s : S) (log : List DiagCall)
      → (p : Bool × S) × (wait_aux (traced port) ms_to_ticks (s, log) ≡ some (p.0, (p.1, log)))
  unfolding wait_aux
  wait_ends s log =
      let w =
        wait-Quiet port ms_to_ticks k (k.clock s) (ms_to_ticks 500) k.timeout_short
          (ms_to_ticks 500 + 1) 0 s log (omega arith) (omega arith) (omega arith) (omega arith) in
      (w.0, rw (k.count_reads s) (w.1))
