-- ===== src/Tasks/Vehicle/Stop.antt =====
-- The stop button under every order of the tasks' steps of ESP_AKS/src/main.cpp.
use tufan_aks.Base.{
  ℕ, ◌≡◌, ◌≢◌, sym, ◌∙◌, subst, ◌⊎◌, inl, inr, Bool-cases, true, false, List, ◌∷◌, ◌++◌, none,
}
use tufan_aks.Safety.{VcuState}
use tufan_aks.Vcu.{VcuEvent, Machine, post_event, next_event, is_overriding}
use tufan_aks.Vcu.Stop.{post_event-Posted, post_estop, run_pending_estop, run_entered_estop}
use tufan_aks.Display.Touch.{touch_frame}
use tufan_aks.Tasks.Hmi.Button.{button_posts}
use tufan_aks.Tasks.Vehicle.Hardware.{Board}
use tufan_aks.Tasks.Vehicle.{
  Vehicle, Action, do_hmi_poll, do_vcu, step, steps, hmi_poll, hmi_poll_at,
}
use tufan_aks.Tasks.Vehicle.Phases.{poll, running}
use tufan_aks.Tasks.Vehicle.Order.{ticks, steps-Quiet, tick_runs}

module _ (H : Board) where
  poll_posts :
      (v : Vehicle H) (arrived : List ℕ) (noise : ℕ) (rest : List ℕ)
      → v.hmi.phase ≡ poll
      → v.hmi.display.is_initialized ≡ true
      → (noise ≡ 0xFF) ⊎ (noise ≡ 0)
      → v.hmi.rx ++ arrived ≡ noise ∷ (touch_frame 3 ++ rest)
      → (step H (do_hmi_poll arrived) v).vcu
        ≡ post_event H.relays H.events VcuEvent.emergency_stop v.vcu
  unfolding step hmi_poll hmi_poll_at
  poll_posts v arrived noise rest p i n e =
      rw (p, hmi_poll_at)
        (rw e (button_posts H.relays H.events v.hmi.display v.hmi.touch noise rest v.vcu i n))

  -- A stop that has been posted, and further steps with no tick: the next tick enters EMERGENCY_STOP.
  posted_enters :
      (v : Vehicle H) (m : Machine H.relays H.events) (acts : List (Action H))
      → v.vcu ≡ post_event H.relays H.events VcuEvent.emergency_stop m
      → m.event_queue ≢ none
      → m.state ≢ VcuState.emergency_stop
      → ticks H acts v ≡ 0
      → (steps H acts v).vcu_task ≡ running
      → ((step H do_vcu (steps H acts v)).vcu.state ≡ VcuState.emergency_stop)
        × ((step H do_vcu (steps H acts v)).vcu.state_timer ≡ 0)
        × ((step H do_vcu (steps H acts v)).vcu.relays_opened_in_estop ≡ false)
  posted_enters v m acts e q ne quiet r =
      let first = post_event-Posted H.relays H.events VcuEvent.emergency_stop m in
      let later = steps-Quiet H acts v quiet in
      let u = (steps H acts v).vcu in
      let pending = later.estop_kept (rw e (post_estop H.relays H.events m q)) in
      let same : u.state ≡ m.state = later.state_eq ∙ rw e first.state_eq in
      let t = run_pending_estop H.relays H.events u pending (λ h. ne (sym same ∙ h)) in
      subst
        (λ w.
          (w.state ≡ VcuState.emergency_stop)
          × (w.state_timer ≡ 0)
          × (w.relays_opened_in_estop ≡ false))
        (sym (tick_runs H (steps H acts v) r)) (t.0, t.1, t.3)

  -- After the entry, further steps with no tick, and the second tick.
  entered_opens :
      (v : Vehicle H) (acts : List (Action H)) (ch : ℕ)
      → v.vcu.state ≡ VcuState.emergency_stop
      → v.vcu.state_timer ≡ 0
      → v.vcu.relays_opened_in_estop ≡ false
      → ticks H acts v ≡ 0
      → (steps H acts v).vcu_task ≡ running
      → (steps H acts v).vcu.fault_pending ≡ false
      → is_overriding (next_event H.relays H.events (steps H acts v).vcu) ≡ false
      → H.relays.closed (step H do_vcu (steps H acts v)).vcu.relays ch ≡ false
  entered_opens v acts ch st ti op quiet r f o =
      let k = steps-Quiet H acts v quiet in
      let u = (steps H acts v).vcu in
      subst (λ w. H.relays.closed w.relays ch ≡ false) (sym (tick_runs H (steps H acts v) r))
        (run_entered_estop H.relays H.events u ch (k.state_eq ∙ st) (k.timer_eq ∙ ti)
          (k.opened_in_estop_eq ∙ op) f o).1

  -- The vehicle after a poll of the buttons, the steps `acts` and a tick, and after the steps `more` and a second tick.
  abbrev pub first_tick : Vehicle H → List ℕ → List (Action H) → Vehicle H
  first_tick v arrived acts = step H do_vcu (steps H acts (step H (do_hmi_poll arrived) v))

  -- The stop button stops the vehicle whatever the tasks do in between. With the event queue created,
  -- the display set up and its task about to poll, if the bytes that wait and those that have arrived are
  -- one of noise (0xFF or 0x00), the frame of the stop command and anything: after any further steps of
  -- the four tasks in any order with no tick of the state machine among them, its task running, the next
  -- tick enters EMERGENCY_STOP from any other state; and after any such steps again, the tick after it
  -- commands channel ch open, unless then a fault is pending or the event next in the queue is RESET,
  -- EMERGENCY_STOP or FAULT_DETECTED.
  pub stop_in_any_order :
      (v : Vehicle H) (arrived : List ℕ) (noise : ℕ) (rest : List ℕ) (acts more : List (Action H))
      (ch : ℕ)
      → v.hmi.phase ≡ poll
      → v.hmi.display.is_initialized ≡ true
      → (noise ≡ 0xFF) ⊎ (noise ≡ 0)
      → v.hmi.rx ++ arrived ≡ noise ∷ (touch_frame 3 ++ rest)
      → v.vcu.event_queue ≢ none
      → v.vcu.state ≢ VcuState.emergency_stop
      → ticks H acts (step H (do_hmi_poll arrived) v) ≡ 0
      → (steps H acts (step H (do_hmi_poll arrived) v)).vcu_task ≡ running
      → ticks H more (first_tick v arrived acts) ≡ 0
      → let w = steps H more (first_tick v arrived acts) in
        w.vcu_task ≡ running
        → ((first_tick v arrived acts).vcu.state ≡ VcuState.emergency_stop)
          × ((H.relays.closed (step H do_vcu w).vcu.relays ch ≡ false)
              ⊎ ((w.vcu.fault_pending ≡ true)
                  ⊎ (is_overriding (next_event H.relays H.events w.vcu) ≡ true)))
  stop_in_any_order v arrived noise rest acts more ch p i n e q ne quiet r quiet' r' =
      let t =
        posted_enters (step H (do_hmi_poll arrived) v) v.vcu acts
          (poll_posts v arrived noise rest p i n e) q ne quiet r in
      let w = steps H more (first_tick v arrived acts) in
      (
        t.0,
        elim (Bool-cases w.vcu.fault_pending) [
          | inl f ↦ inr (inl f)
          | inr f ↦ elim (Bool-cases (is_overriding (next_event H.relays H.events w.vcu))) [
            | inl o ↦ inr (inr o)
            | inr o ↦
                inl (
                  entered_opens (first_tick v arrived acts) more ch (t.0) (t.1) (t.2) quiet' r' f o)
          ]
        ],
      )
