-- ===== src/Tasks/Hmi/Button.antt =====
-- From a touch button to the state machine: the display task of ESP_AKS/src/main.cpp.
use tufan_aks.Base.{ℕ, ◌≡◌, ◌⊎◌, refl, arith, true, List, ◌∷◌, ◌++◌}
use tufan_aks.Actuator.{RelayActuator}
use tufan_aks.Queue.{EventQueue}
use tufan_aks.Vcu.{VcuEvent, Machine, post_event}
use tufan_aks.Display.{Display, TouchRx}
use tufan_aks.Display.Touch.{touch_frame, frame-recognised}
use tufan_aks.Tasks.Hmi.{poll_buttons, command_event}

module _ (R : RelayActuator) (Q : EventQueue VcuEvent) where
  pub button_posts :
      (d : Display) (t : TouchRx) (noise : ℕ) (rest : List ℕ) (s : Machine R Q)
      → d.is_initialized ≡ true
      → (noise ≡ 0xFF) ⊎ (noise ≡ 0)
      → (poll_buttons R Q d (noise ∷ (touch_frame 3 ++ rest)) t s).0
        ≡ post_event R Q VcuEvent.emergency_stop s
  unfolding poll_buttons command_event
  button_posts d t noise rest s i n =
      rw (frame-recognised d t noise 3 rest i n (omega arith) (omega arith)) refl
