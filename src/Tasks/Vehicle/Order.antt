-- ===== src/Tasks/Vehicle/Order.antt =====
-- What a step of any task of ESP_AKS/src/main.cpp does to the state machine: it ticks it, or it leaves its
-- state, its timer and its contactors alone and takes no pending stop or fault back.
use tufan_aks.Base.{
  ℕ, zero, suc, ◌+◌, ◌≡◌, refl, sym, subst, ◌⊎◌, inl, inr, arith, Bool, true, false, List, [], ◌∷◌,
  Option, none, some, if◌then◌else◌, Option-cases,
}
use tufan_aks.Vcu.{VcuEvent, Machine, post_event, run}
use tufan_aks.Vcu.Stop.{Posted, post_event-Posted, set_telemetry-Posted, Posted-refl, Posted-trans}
use tufan_aks.Can.Receive.{Alerts, RxResult}
use tufan_aks.Tasks.Radio.{Round}
use tufan_aks.Tasks.Hmi.{poll_buttons, command_event, post_command}
use tufan_aks.Tasks.Vehicle.Hardware.{Board}
use tufan_aks.Tasks.Vehicle.{
  Vehicle, Action, can_set_up, can_receive, can_post, can_publish, vcu_run, vcu_step, hmi_set_up,
  hmi_show, hmi_show_at, hmi_poll, can_post_at, can_set_up_at, can_receive_at, can_publish_at,
  radio_step_at, vcu_step_at, hmi_poll_at, radio_step, step, steps, do_can_set_up, do_can_receive,
  do_can_post, do_can_publish, do_vcu, do_hmi_set_up, do_hmi_show, do_hmi_poll, do_radio,
}
use tufan_aks.Tasks.Vehicle.Phases.{
  CanTask, VcuTask, HmiPhase, starting, deleted, reading, posting, publishing, peeking, setting,
  running, poll,
}

module _ (H : Board) where
  -- The step is a tick of the state machine.
  abbrev pub is_tick : Action H → VcuTask → Bool
  is_tick do_vcu running = true
  is_tick _ _ = false

  unfoldable pub ticks : List (Action H) → Vehicle H → ℕ
  ticks [] v = 0
  ticks (a ∷ rest) v = (if is_tick a v.vcu_task then 1 else 0) + ticks rest (step H a v)

  -- What the steps between two ticks keep of the machine.
  abbrev pub Quiet : Vehicle H → Vehicle H → Type 0
  Quiet v w = Posted H.relays H.events v.vcu w.vcu

  Same : Vehicle H → Vehicle H → Type 0
  Same v w = w.vcu ≡ v.vcu

  Same-Quiet : (v w : Vehicle H) → Same v w → Quiet v w
  unfolding Same
  Same-Quiet v w e =
      subst (λ m. Posted H.relays H.events v.vcu m) (sym e) (Posted-refl H.relays H.events v.vcu)

  can_set_up-Same : (created : Bool) (v : Vehicle H) → Same v (can_set_up H created v)
  unfolding can_set_up can_set_up_at Same
  can_set_up-Same created v = ground arith

  can_receive-Same :
      (now later : ℕ) (alerts : Option Alerts) (q : List RxResult) (v : Vehicle H)
      → Same v (can_receive H now later alerts q v)
  unfolding can_receive can_receive_at Same
  can_receive-Same now later alerts q v = ground arith

  can_publish-Same : (speed now_ms : ℕ) (v : Vehicle H) → Same v (can_publish H speed now_ms v)
  unfolding can_publish can_publish_at Same
  can_publish-Same speed now_ms v = ground arith

  hmi_set_up-Same :
      (a b c : Bool) (late : List ℕ) (v : Vehicle H) → Same v (hmi_set_up H a b c late v)
  unfolding hmi_set_up Same
  hmi_set_up-Same a b c late v = ground arith

  hmi_show-Same : (speed rpm now : ℕ) (v : Vehicle H) → Same v (hmi_show H speed rpm now v)
  unfolding hmi_show hmi_show_at Same
  hmi_show-Same speed rpm now v = ground arith

  radio_step-Same : (i : Round) (v : Vehicle H) → Same v (radio_step H i v)
  unfolding radio_step radio_step_at Same
  radio_step-Same i v = ground arith

  -- The machine after a step of a task other than its own: at most an event is posted.
  Touched : Vehicle H → Vehicle H → Type 0
  Touched v w = (w.vcu ≡ v.vcu) ⊎ ((e : VcuEvent) × (w.vcu ≡ post_event H.relays H.events e v.vcu))

  Touched-Quiet : (v w : Vehicle H) → Touched v w → Quiet v w
  unfolding Touched
  Touched-Quiet v w (inl e) =
      subst (λ m. Posted H.relays H.events v.vcu m) (sym e) (Posted-refl H.relays H.events v.vcu)
  Touched-Quiet v w (inr (e, h)) =
      subst (λ m. Posted H.relays H.events v.vcu m) (sym h)
        (post_event-Posted H.relays H.events e v.vcu)

  can_post_at-Touched : (c : CanTask) (v : Vehicle H) → Touched v (can_post_at H c v)
  unfolding can_post_at Touched
  can_post_at-Touched (posting zero m) v = inl refl
  can_post_at-Touched (posting (suc n) m) v = inr (VcuEvent.fault_detected, refl)
  can_post_at-Touched starting v = inl refl
  can_post_at-Touched deleted v = inl refl
  can_post_at-Touched (reading m) v = inl refl
  can_post_at-Touched (publishing m) v = inl refl

  can_post-Touched : (v : Vehicle H) → Touched v (can_post H v)
  unfolding can_post
  can_post-Touched v = can_post_at-Touched v.can v

  can_post_at-task : (c : CanTask) (v : Vehicle H) → (can_post_at H c v).vcu_task ≡ v.vcu_task
  unfolding can_post_at
  can_post_at-task (posting zero m) v = refl
  can_post_at-task (posting (suc n) m) v = refl
  can_post_at-task starting v = refl
  can_post_at-task deleted v = refl
  can_post_at-task (reading m) v = refl
  can_post_at-task (publishing m) v = refl

  pub step_post-task : (v : Vehicle H) → (step H do_can_post v).vcu_task ≡ v.vcu_task
  unfolding step can_post
  step_post-task v = can_post_at-task v.can v

  post_command-Touched :
      (c : Option ℕ) (s : Machine H.relays H.events)
      → (post_command H.relays H.events c s ≡ s)
        ⊎ ((e : VcuEvent) × (post_command H.relays H.events c s ≡ post_event H.relays H.events e s))
  post_command-Touched none s = inl refl
  post_command-Touched (some c) s = elim (Option-cases (command_event c)) [
    | inl h ↦ inl (rw (h, post_command) refl)
    | inr (e, h) ↦ inr (e, rw (h, post_command) refl)
  ]

  hmi_poll_at-Touched :
      (p : HmiPhase) (arrived : List ℕ) (v : Vehicle H) → Touched v (hmi_poll_at H p arrived v)
  unfolding hmi_poll_at Touched poll_buttons
  hmi_poll_at-Touched poll arrived v = post_command-Touched _ v.vcu
  hmi_poll_at-Touched _ arrived v = inl refl

  hmi_poll-Touched : (arrived : List ℕ) (v : Vehicle H) → Touched v (hmi_poll H arrived v)
  unfolding hmi_poll
  hmi_poll-Touched arrived v = hmi_poll_at-Touched v.hmi.phase arrived v

  -- A step of the machine's own task, and then of any.
  vcu_step_at-Moves :
      (t : VcuTask) (v : Vehicle H)
      → ((is_tick do_vcu t ≡ false) × Quiet v (vcu_step_at H t v))
        ⊎ ((is_tick do_vcu t ≡ true) × ((vcu_step_at H t v).vcu ≡ run H.relays H.events v.vcu))
  unfolding vcu_step_at vcu_run
  vcu_step_at-Moves peeking v = inl (refl, Posted-refl H.relays H.events v.vcu)
  vcu_step_at-Moves (setting d) v = inl (refl, set_telemetry-Posted H.relays H.events d v.vcu)
  vcu_step_at-Moves running v = inr (refl, refl)

  pub step-Moves :
      (a : Action H) (v : Vehicle H)
      → ((is_tick a v.vcu_task ≡ false) × Quiet v (step H a v))
        ⊎ ((is_tick a v.vcu_task ≡ true) × ((step H a v).vcu ≡ run H.relays H.events v.vcu))
  unfolding step vcu_step
  step-Moves (do_can_set_up created) v = inl (refl, Same-Quiet v _ (can_set_up-Same created v))
  step-Moves (do_can_receive now later alerts q) v =
      inl (refl, Same-Quiet v _ (can_receive-Same now later alerts q v))
  step-Moves do_can_post v = inl (refl, Touched-Quiet v _ (can_post-Touched v))
  step-Moves (do_can_publish speed now_ms) v =
      inl (refl, Same-Quiet v _ (can_publish-Same speed now_ms v))
  step-Moves do_vcu v = vcu_step_at-Moves v.vcu_task v
  step-Moves (do_hmi_set_up a b c late) v =
      inl (refl, Same-Quiet v _ (hmi_set_up-Same a b c late v))
  step-Moves (do_hmi_show speed rpm now) v =
      inl (refl, Same-Quiet v _ (hmi_show-Same speed rpm now v))
  step-Moves (do_hmi_poll arrived) v = inl (refl, Touched-Quiet v _ (hmi_poll-Touched arrived v))
  step-Moves (do_radio i) v = inl (refl, Same-Quiet v _ (radio_step-Same i v))

  -- Steps with no tick among them, in any order.
  pub steps-Quiet :
      (acts : List (Action H)) (v : Vehicle H) → ticks acts v ≡ 0 → Quiet v (steps H acts v)
  unfolding steps ticks
  steps-Quiet [] v h = Posted-refl H.relays H.events v.vcu
  steps-Quiet (a ∷ rest) v h = by_step (step-Moves a v) h (steps-Quiet rest (step H a v))
    where
      by_step :
          ((is_tick a v.vcu_task ≡ false) × Quiet v (step H a v))
            ⊎ ((is_tick a v.vcu_task ≡ true) × ((step H a v).vcu ≡ run H.relays H.events v.vcu))
          → (if is_tick a v.vcu_task then 1 else 0) + ticks rest (step H a v) ≡ 0
          → (ticks rest (step H a v) ≡ 0 → Quiet (step H a v) (steps H rest (step H a v)))
          → Quiet v (steps H rest (step H a v))
      by_step (inl (e, q)) h later =
          Posted-trans H.relays H.events v.vcu (step H a v).vcu _ q (later (omega arith))
      by_step (inr (e, q)) h later = absurd (
          let none_left : 1 + ticks rest (step H a v) ≡ 0 =
            subst (λ b. (if b then 1 else 0) + ticks rest (step H a v) ≡ 0) e h in
          omega arith)

  pub tick_runs :
      (v : Vehicle H) → v.vcu_task ≡ running → (step H do_vcu v).vcu ≡ run H.relays H.events v.vcu
  unfolding step vcu_step vcu_step_at vcu_run
  tick_runs v h = rw (h, vcu_step_at) refl
