-- ===== src/Queue.antt =====
-- The FreeRTOS queue (`xQueueCreate(8, …)`, `xQueueSend` and `xQueueReceive` with no wait), which
-- is not part of the repository: its operations, and what its documentation says of them.
use tufan_aks.Base.{
  ℕ, ◌≡◌, ◌<◌, ◌≤◌, Bool, true, false, Option, none, some, List, [], ◌∷◌, ◌++◌, length,
}

pub record EventQueue (A : Type 0) : Type 1 where
  pub Handle : Type 0
  pub capacity : ℕ
  pub contents : Handle → List A
  pub send : A → Handle → Bool × Handle
  pub receive : Handle → Option (A × Handle)
  pub send_room :
      (a : A) (q : Handle)
      → length (contents q) < capacity
      → ((send a q).0 ≡ true) × (contents (send a q).1 ≡ contents q ++ (a ∷ []))
  pub send_full : (a : A) (q : Handle) → capacity ≤ length (contents q) → send a q ≡ (false, q)
  pub receive_empty : (q : Handle) → contents q ≡ [] → receive q ≡ none
  pub receive_first :
      (q : Handle) {a : A} {rest : List A}
      → contents q ≡ a ∷ rest
      → (q' : Handle) × (receive q ≡ some (a, q')) × (contents q' ≡ rest)
