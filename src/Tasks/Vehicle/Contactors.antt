-- ===== src/Tasks/Vehicle/Contactors.antt =====
-- The contactors under every order of the tasks' steps, from the set-up in `app_main` of ESP_AKS/src/main.cpp.
use tufan_aks.Base.{
  ℕ, ◌<◌, ◌≡◌, sym, subst, inl, inr, arith, Bool, true, false, List, [], ◌∷◌, Option, some,
}
use mathlib.Core.Option.{none-ne-some, some-injective}
use tufan_aks.Vcu.{Machine, boot}
use tufan_aks.Vcu.Stop.{Posted}
use tufan_aks.Vcu.Contactors.{Inv, run-Inv, init-Inv, set_torque_sink-Inv}
use tufan_aks.Display.{Display}
use tufan_aks.Tasks.System.{app_main}
use tufan_aks.Tasks.Vehicle.Hardware.{Board}
use tufan_aks.Tasks.Vehicle.{Vehicle, Action, step, steps, started}
use tufan_aks.Tasks.Vehicle.Order.{step-Moves}

module _ (H : Board) (ch : ℕ) (in_range : ch < 10) where
  abbrev pub IsSafe : Vehicle H → Type 0
  IsSafe v = Inv H.relays H.events ch in_range v.vcu

  Posted-Inv :
      (s t : Machine H.relays H.events)
      → Posted H.relays H.events s t
      → Inv H.relays H.events ch in_range s
      → Inv H.relays H.events ch in_range t
  Posted-Inv s t p v = ground arith

  step-IsSafe : (a : Action H) (v : Vehicle H) → IsSafe v → IsSafe (step H a v)
  step-IsSafe a v safe = elim (step-Moves H a v) [
    | inl (e, q) ↦ Posted-Inv v.vcu (step H a v).vcu q safe
    | inr (e, r) ↦
        subst (Inv H.relays H.events ch in_range) (sym r)
          (run-Inv H.relays H.events ch in_range v.vcu safe)
  ]

  steps-IsSafe : (acts : List (Action H)) (v : Vehicle H) → IsSafe v → IsSafe (steps H acts v)
  unfolding steps
  steps-IsSafe [] v safe = safe
  steps-IsSafe (a ∷ rest) v safe = steps-IsSafe rest (step H a v) (step-IsSafe a v safe)

  app_main-Inv :
      (relays_ok : Bool) (queue : Option H.events.Handle) (mutex mailbox_ok : Bool)
      (r : H.relays.State) (machine : Machine H.relays H.events)
      → H.relays.usable r ≡ true
      → app_main H.relays H.events relays_ok queue mutex mailbox_ok (boot H.relays H.events r)
        ≡ some machine
      → Inv H.relays H.events ch in_range machine
  unfolding app_main
  app_main-Inv false queue mutex mailbox_ok r machine u e = absurd (none-ne-some machine e)
  app_main-Inv true queue mutex false r machine u e = absurd (none-ne-some machine e)
  app_main-Inv true queue mutex true r machine u e =
      subst (Inv H.relays H.events ch in_range) (some-injective _ machine e) (
        set_torque_sink-Inv H.relays H.events ch in_range true _
          (init-Inv H.relays H.events ch in_range queue mutex r u))

  -- The contactors follow the state under every order of the tasks' steps. If `app_main`, with the relay driver set
  -- up, starts the tasks, whatever the creating calls return: after any steps of the four tasks in any order, with any
  -- frames, buttons, clocks and answers of the hardware, channel ch is commanded closed in READY and DRIVE, and
  -- commanded open in EMERGENCY_STOP and FAULT from the tick that first opened it.
  pub vehicle-IsSafe :
      (relays_ok : Bool) (queue : Option H.events.Handle) (mutex mailbox_ok : Bool)
      (r : H.relays.State) (machine : Machine H.relays H.events) (bus : H.Bus) (box : H.mailbox.Box)
      (lora : H.Lora) (display : Display) (acts : List (Action H))
      → H.relays.usable r ≡ true
      → app_main H.relays H.events relays_ok queue mutex mailbox_ok (boot H.relays H.events r)
        ≡ some machine
      → IsSafe (steps H acts (started H bus box lora display machine))
  unfolding started
  vehicle-IsSafe relays_ok queue mutex mailbox_ok r machine bus box lora display acts u e =
      steps-IsSafe acts (started H bus box lora display machine)
        (app_main-Inv relays_ok queue mutex mailbox_ok r machine u e)
