-- ===== src/Buffer/Tests.antt =====
-- The ring's theorems on the empty ring and on one sample.
use tufan_aks.Base.{◌≡◌, [], ◌∷◌, ◌++◌, length}
use tufan_aks.Fixtures.{healthy, overcharged}
use tufan_aks.Buffer.{Ring, new_ring, ob_push, ob_count}
use tufan_aks.Buffer.Refine.{
  IsRing, contents, newest, push_all, push_all-newest, push-contents, front_agrees, QueueView,
  new_ring-IsRing,
}

push_all-newest_example :
    (contents (push_all (healthy ∷ overcharged ∷ []) new_ring)
      ≡ newest (contents new_ring ++ (healthy ∷ overcharged ∷ [])))
    × IsRing (push_all (healthy ∷ overcharged ∷ []) new_ring)
push_all-newest_example = push_all-newest (healthy ∷ overcharged ∷ []) new_ring new_ring-IsRing

abbrev one_sample : Ring
one_sample = ob_push healthy new_ring

one_sample-IsRing : IsRing one_sample
one_sample-IsRing = (push-contents healthy new_ring new_ring-IsRing).1

front_agrees_example : (ob_count one_sample ≡ length (contents one_sample)) × QueueView one_sample
front_agrees_example = front_agrees one_sample one_sample-IsRing
