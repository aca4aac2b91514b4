-- ===== src/Tasks/Vehicle/Fits.antt =====
-- The values that the tasks of ESP_AKS/src/main.cpp pass on are of the types of their fields: the manager of the CAN task,
-- the mailbox, and the ring and the sender of the radio task.
use tufan_aks.Base.{
  ℕ, zero, suc, ◌<◌, ◌≡◌, sym, subst, arith, Bool, true, false, List, [], ◌∷◌, Option, All,
  if◌then◌else◌,
}
use tufan_aks.Base.Words.{u16_mod, u32_mod}
use tufan_aks.Telemetry.Frame.{Fits}
use tufan_aks.Can.{CanManager, new_manager, send_torque_command}
use tufan_aks.Can.Update.{get_telemetry_data}
use tufan_aks.Can.Begin
use tufan_aks.Can.Receive.{Alerts, RxResult}
use tufan_aks.Can.Keep.{RxFits}
use tufan_aks.Can.Fits.{ManagerFits, process-Fits, new_manager-Fits, torque-Fits}
use tufan_aks.Tasks.Transmit.Offer.{Offer}
use tufan_aks.Tasks.Radio.Run.{Inv, SnapshotFits}
use tufan_aks.Tasks.System.{snapshot_of}
use tufan_aks.Tasks.Vehicle.Hardware.{Board}
use tufan_aks.Tasks.Vehicle.{
  Vehicle, Action, do_can_receive, do_can_publish, can_post_at, vcu_run, vcu_step_at, hmi_set_up,
  hmi_show, hmi_show_at, hmi_poll_at, can_set_up_at, can_receive_at, can_publish_at,
}
use tufan_aks.Tasks.Vehicle.Phases.{
  CanTask, VcuTask, HmiPhase, RadioTask, starting, deleted, reading, posting, publishing, peeking,
  setting, running, unset, disabled, sending, call_sink, deliver_torque,
}
use tufan_aks.Tasks.Vehicle.Recorded.{recorded_board}

abbrev pub CanFits : CanTask → Type 0
CanFits starting = Unit
CanFits deleted = Unit
CanFits (reading m) = ManagerFits m
CanFits (publishing m) = ManagerFits m
CanFits (posting n m) = ManagerFits m

calls-Fits : (ts : List ℕ) (m : CanManager) → ManagerFits m → ManagerFits (call_sink ts m)
calls-Fits [] m h = h
calls-Fits (t ∷ ts) m h = calls-Fits ts (send_torque_command t m).1 (torque-Fits t m h)

deliver-CanFits : (ts : List ℕ) (c : CanTask) → CanFits c → CanFits (deliver_torque ts c)
unfolding deliver_torque
deliver-CanFits ts starting h = tt
deliver-CanFits ts deleted h = tt
deliver-CanFits ts (reading m) h = calls-Fits ts m h
deliver-CanFits ts (publishing m) h = calls-Fits ts m h
deliver-CanFits ts (posting n m) h = calls-Fits ts m h

module _ (H : Board) where
  -- The radio task with a log keeps what its rounds rely on, if it is up.
  abbrev pub RadioFits : RadioTask (H.Lora × List Offer) → Type 0
  RadioFits (unset s) = Unit
  RadioFits (disabled s) = Unit
  RadioFits (sending boot_ms r) = Inv 1 r

  abbrev pub IsFit : Vehicle (recorded_board H) → Type 0
  IsFit v = CanFits v.can × SnapshotFits (H.mailbox.peek v.box) × RadioFits v.radio

  -- What the driver delivers are bytes, and what the task adds to a snapshot is of the types of the fields.
  abbrev pub ActionFits : Action (recorded_board H) → Type 0
  ActionFits (do_can_receive now later alerts q) = All RxFits q
  ActionFits (do_can_publish speed now_ms) = speed < u16_mod × now_ms < u32_mod
  ActionFits _ = Unit

  begin-Fits :
      (created : Bool) (m : CanManager) (bus : H.Bus)
      → ManagerFits m
      → ManagerFits (Begin.begin H.bus created m bus).1
  unfolding Begin.begin
  begin-Fits created m bus h = ground arith

  pub set_up-IsFit :
      (c : CanTask) (created : Bool) (v : Vehicle (recorded_board H))
      → IsFit v
      → IsFit (can_set_up_at (recorded_board H) c created v)
  unfolding can_set_up_at
  set_up-IsFit starting created v (h, b, r) = (
    by_answer (Begin.begin H.bus created new v.can_bus).0 _
        (begin-Fits created new v.can_bus new_manager-Fits),
    b,
    r,
  )
    where
      new : CanManager
      new = record new_manager { event_callback = true }

      by_answer :
          (ok : Bool) (m : CanManager) → ManagerFits m → CanFits (if ok then reading m else deleted)
      by_answer true m h = h
      by_answer false m h = tt
  set_up-IsFit deleted created v h = h
  set_up-IsFit (reading m) created v h = h
  set_up-IsFit (publishing m) created v h = h
  set_up-IsFit (posting n m) created v h = h

  pub receive-IsFit :
      (c : CanTask) (now later : ℕ) (alerts : Option Alerts) (q : List RxResult)
      (v : Vehicle (recorded_board H))
      → All RxFits q
      → CanFits c
      → IsFit v
      → IsFit (can_receive_at (recorded_board H) c now later alerts q v)
  unfolding can_receive_at
  receive-IsFit (reading m) now later alerts q v a g (h, b, r) =
      (process-Fits H.ms_to_ticks now later alerts q m a g, b, r)
  receive-IsFit starting now later alerts q v a g h = h
  receive-IsFit deleted now later alerts q v a g h = h
  receive-IsFit (publishing m) now later alerts q v a g h = h
  receive-IsFit (posting n m) now later alerts q v a g h = h

  pub post-IsFit :
      (c : CanTask) (v : Vehicle (recorded_board H))
      → CanFits c
      → IsFit v
      → IsFit (can_post_at (recorded_board H) c v)
  unfolding can_post_at
  post-IsFit (posting zero m) v g (h, b, r) = (g, b, r)
  post-IsFit (posting (suc n) m) v g (h, b, r) = (g, b, r)
  post-IsFit starting v g h = h
  post-IsFit deleted v g h = h
  post-IsFit (reading m) v g h = h
  post-IsFit (publishing m) v g h = h

  snapshot-Fits :
      (speed now_ms : ℕ) (m : CanManager)
      → speed < u16_mod
      → now_ms < u32_mod
      → ManagerFits m
      → Fits (snapshot_of speed now_ms m)
  unfolding snapshot_of get_telemetry_data
  snapshot-Fits speed now_ms m s t h = ground arith

  pub publish-IsFit :
      (c : CanTask) (speed now_ms : ℕ) (v : Vehicle (recorded_board H))
      → speed < u16_mod
      → now_ms < u32_mod
      → CanFits c
      → IsFit v
      → IsFit (can_publish_at (recorded_board H) c speed now_ms v)
  unfolding can_publish_at
  publish-IsFit (publishing m) speed now_ms v s t g (h, b, r) = (
    g,
    subst SnapshotFits (sym (H.mailbox.peek-overwrite (snapshot_of speed now_ms m) v.box))
        (snapshot-Fits speed now_ms m s t g),
    r,
  )
  publish-IsFit starting speed now_ms v s t g h = h
  publish-IsFit deleted speed now_ms v s t g h = h
  publish-IsFit (reading m) speed now_ms v s t g h = h
  publish-IsFit (posting n m) speed now_ms v s t g h = h

  pub vcu-IsFit :
      (t : VcuTask) (v : Vehicle (recorded_board H))
      → IsFit v
      → IsFit (vcu_step_at (recorded_board H) t v)
  unfolding vcu_step_at vcu_run
  vcu-IsFit peeking v h = h
  vcu-IsFit (setting d) v h = h
  vcu-IsFit running v (h, b, r) = (deliver-CanFits _ v.can h, b, r)

  -- The display task touches none of these.
  pub Apart : Vehicle (recorded_board H) → Vehicle (recorded_board H) → Type 0
  Apart v w = (w.can ≡ v.can) × (w.box ≡ v.box) × (w.radio ≡ v.radio)

  pub Apart-IsFit : (v w : Vehicle (recorded_board H)) → Apart v w → IsFit v → IsFit w
  unfolding Apart
  Apart-IsFit v w (c, b, r) (h, k, l) = (
    subst CanFits (sym c) h,
    subst (λ x. SnapshotFits (H.mailbox.peek x)) (sym b) k,
    subst RadioFits (sym r) l,
  )

  pub hmi_set_up-Apart :
      (a b c : Bool) (late : List ℕ) (v : Vehicle (recorded_board H))
      → Apart v (hmi_set_up (recorded_board H) a b c late v)
  unfolding hmi_set_up Apart
  hmi_set_up-Apart a b c late v = (ground arith, ground arith, ground arith)

  pub hmi_show-Apart :
      (speed rpm now : ℕ) (v : Vehicle (recorded_board H))
      → Apart v (hmi_show (recorded_board H) speed rpm now v)
  unfolding hmi_show hmi_show_at Apart
  hmi_show-Apart speed rpm now v = (ground arith, ground arith, ground arith)

  pub hmi_poll-Apart :
      (p : HmiPhase) (arrived : List ℕ) (v : Vehicle (recorded_board H))
      → Apart v (hmi_poll_at (recorded_board H) p arrived v)
  unfolding hmi_poll_at Apart
  hmi_poll-Apart p arrived v = (ground arith, ground arith, ground arith)
