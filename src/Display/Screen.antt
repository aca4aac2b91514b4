-- ===== src/Display/Screen.antt =====
-- The display's cache, `updateScreen` of ESP_AKS/lib/DisplayHMI/DisplayHMI.cpp.
use tufan_aks.Base.{ℕ, ◌≡◌, refl, arith, true, false, List, [], ◌∷◌}
use tufan_aks.Base.Int.{ℤ, pos, negsuc}
use tufan_aks.Display.{DisplayData, Display, send_screen, update_screen}
use tufan_aks.Base.Int.{eqb_ℤ}
use tufan_aks.Base.Decimal.{eqb_text}
use tufan_aks.Display.Helpers.{send_numeric_if_changed, send_text_if_changed}

eqb_ℤ-self : (z : ℤ) → eqb_ℤ z z ≡ true
eqb_ℤ-self (pos n) = ground arith
eqb_ℤ-self (negsuc n) = ground arith

eqb_text_self : (s : List ℕ) → eqb_text s s ≡ true
eqb_text_self [] = refl
eqb_text_self (c ∷ s) = ground (arith, eqb_text_self s)

numeric_same :
    (component : List ℕ) (z : ℤ) (writes : List (List ℕ))
    → send_numeric_if_changed component z z false writes ≡ writes
unfolding send_numeric_if_changed
numeric_same component z writes = rw (eqb_ℤ-self z) refl

text_same :
    (component s : List ℕ) (writes : List (List ℕ))
    → send_text_if_changed component s s false writes ≡ writes
unfolding send_text_if_changed
text_same component s writes = rw (eqb_text_self s) refl

screen_same : (d : DisplayData) (writes : List (List ℕ)) → send_screen false d d writes ≡ writes
unfolding send_screen
screen_same d writes = simp (numeric_same, text_same)

-- A screen that has been sent is not sent again: once the display is set up, a second update with the same data writes
-- nothing, whatever was shown before.
pub update-twice :
    (screen : DisplayData) (d : Display) (w v : List (List ℕ))
    → d.is_initialized ≡ true
    → (update_screen screen (update_screen screen d w).0 v).1 ≡ v
unfolding update_screen
update-twice screen d w v i = rw i (screen_same screen v)
