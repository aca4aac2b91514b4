-- ===== src/Can/Begin/Driver.antt =====
-- In what state `CanManager::begin` of ESP_AKS/lib/CanManager/CanManager.cpp leaves the driver.
use tufan_aks.Base.{
  ℕ, Bool, true, false, not, if◌then◌else◌, List, [], ◌∷◌, Option, none, some, ◌≡◌, ◌⊎◌, inl, inr,
  refl, subst, sym, ap, ◌∙◌, arith,
}
use tufan_aks.Can.{CanManager}
use tufan_aks.Can.Begin.{
  TwaiDriver, bitrates, listen, start_and_listen, probe, detect, fallback, set_up_driver, begin,
}

-- The documented behaviour of the driver: it is not installed, installed or running, at a bitrate; it is
-- installed only where it is not, and started only where it is installed and does not run.
pub data Phase : Type 0 where
  absent : Phase
  installed running : ℕ → Phase

pub record IsTwai {S : Type 0} (driver : TwaiDriver S) : Type 0 where
  pub phase : S → Phase
  pub install_ok :
      (b : ℕ) (s : S)
      → phase s ≡ absent
      → (driver.driver_install b s).0 ≡ true
      → phase (driver.driver_install b s).1 ≡ installed b
  pub install_failed :
      (b : ℕ) (s : S)
      → (driver.driver_install b s).0 ≡ false
      → phase (driver.driver_install b s).1 ≡ phase s
  pub start_ok :
      (b : ℕ) (s : S)
      → phase s ≡ installed b
      → (driver.start s).0 ≡ true
      → phase (driver.start s).1 ≡ running b
  pub start_failed : (s : S) → (driver.start s).0 ≡ false → phase (driver.start s).1 ≡ phase s
  pub receive_keeps : (s : S) → phase (driver.receive s).1 ≡ phase s
  pub stop_stops : (b : ℕ) (s : S) → phase s ≡ running b → phase (driver.stop s) ≡ installed b
  pub uninstall_removes :
      (b : ℕ) (s : S) → phase s ≡ installed b → phase (driver.driver_uninstall s) ≡ absent

module _ {S : Type 0} (driver : TwaiDriver S) (law : IsTwai driver) where
  -- The driver runs at bitrate b and the answer is true, or it is absent and the answer is false.
  abbrev Runs : ℕ → Bool × S → Type 0
  Runs b r =
      ((r.0 ≡ true) × (law.phase (r.1) ≡ running b)) ⊎ ((r.0 ≡ false) × (law.phase (r.1) ≡ absent))

  listen-Runs : (b : ℕ) (s : S) → law.phase s ≡ running b → Runs b (listen driver s)
  unfolding listen
  listen-Runs b s e = by_answer (driver.receive s).0
    where
      heard : law.phase (driver.receive s).1 ≡ running b
      heard = law.receive_keeps s ∙ e

      by_answer :
          (ok : Bool)
          → Runs b (
              if ok
              then (true, (driver.receive s).1)
              else (false, driver.driver_uninstall (driver.stop (driver.receive s).1)))
      by_answer true = inl (refl, heard)
      by_answer false = inr (refl, law.uninstall_removes b _ (law.stop_stops b _ heard))

  start-Runs : (b : ℕ) (s : S) → law.phase s ≡ installed b → Runs b (start_and_listen driver s)
  unfolding start_and_listen
  start-Runs b s e = by_answer (driver.start s).0 refl
    where
      by_answer :
          (ok : Bool)
          → (driver.start s).0 ≡ ok
          → Runs b (
              if ok
              then listen driver (driver.start s).1
              else (false, driver.driver_uninstall (driver.start s).1))
      by_answer true a = listen-Runs b _ (law.start_ok b s e a)
      by_answer false a = inr (refl, law.uninstall_removes b _ (law.start_failed s a ∙ e))

  probe-Runs : (b : ℕ) (s : S) → law.phase s ≡ absent → Runs b (probe driver b s)
  unfolding probe
  probe-Runs b s e = by_answer (driver.driver_install b s).0 refl
    where
      by_answer :
          (ok : Bool)
          → (driver.driver_install b s).0 ≡ ok
          → Runs b (
              if ok
              then start_and_listen driver (driver.driver_install b s).1
              else (false, (driver.driver_install b s).1))
      by_answer true a = start-Runs b _ (law.install_ok b s e a)
      by_answer false a = inr (refl, law.install_failed b s a ∙ e)

  -- The bitrate found, if one was.
  Found : Option ℕ × S → Type 0
  Found (some b, s) = law.phase s ≡ running b
  Found (none, s) = law.phase s ≡ absent

  detect_turn :
      (b : ℕ) (bs : List ℕ) (s : S)
      → Runs b (probe driver b s)
      → (law.phase (probe driver b s).1 ≡ absent → Found (detect driver bs (probe driver b s).1))
      → Found (detect driver (b ∷ bs) s)
  unfolding detect Found
  detect_turn b bs s (inl (a, e)) later = rw (a, detect) e
  detect_turn b bs s (inr (a, e)) later = rw (a, detect) (later e)

  detect-Found : (bs : List ℕ) (s : S) → law.phase s ≡ absent → Found (detect driver bs s)
  unfolding detect Found
  detect-Found [] s e = e
  detect-Found (b ∷ bs) s e =
      detect_turn b bs s (probe-Runs b s e) (λ a. detect-Found bs (probe driver b s).1 a)

  -- The driver runs at some bitrate and the answer is true, or it is absent and the answer is false.
  abbrev IsUp : Bool × S → Type 0
  IsUp r =
      ((b : ℕ) × (r.0 ≡ true) × (law.phase (r.1) ≡ running b))
      ⊎ ((r.0 ≡ false) × (law.phase (r.1) ≡ absent))

  fallback-IsUp : (s : S) → law.phase s ≡ absent → IsUp (fallback driver s)
  unfolding fallback
  fallback-IsUp s e = by_install (driver.driver_install 500 s).0 refl
    where
      there : S
      there = (driver.driver_install 500 s).1

      by_start :
          (ok : Bool)
          → (driver.start there).0 ≡ ok
          → law.phase there ≡ installed 500
          → IsUp (
              if not ok
              then (false, driver.driver_uninstall (driver.start there).1)
              else (true, (driver.start there).1))
      by_start true a p = inl (500, refl, law.start_ok 500 there p a)
      by_start false a p = inr (refl, law.uninstall_removes 500 _ (law.start_failed there a ∙ p))

      by_install :
          (ok : Bool)
          → (driver.driver_install 500 s).0 ≡ ok
          → IsUp (
              if not ok
              then (false, there)
              else (if not (driver.start there).0
                  then (false, driver.driver_uninstall (driver.start there).1)
                  else (true, (driver.start there).1)))
      by_install true a = by_start (driver.start there).0 refl (law.install_ok 500 s e a)
      by_install false a = inr (refl, law.install_failed 500 s a ∙ e)

  start_driver-IsUp : (s : S) → law.phase s ≡ absent → IsUp (set_up_driver driver s)
  unfolding set_up_driver Found
  start_driver-IsUp s e = by_found (detect driver bitrates s) refl (detect-Found bitrates s e)
    where
      by_found :
          (r : Option ℕ × S)
          → detect driver bitrates s ≡ r
          → Found r
          → IsUp (set_up_driver driver s)
      by_found (some b, t) q f =
          let first : (detect driver bitrates s).0 ≡ some b = ap (λ r. r.0) q in
          rw (first, set_up_driver) (inl (b, refl, ap (λ r. law.phase (r.1)) q ∙ f))
      by_found (none, t) q f =
          let first : (detect driver bitrates s).0 ≡ none = ap (λ r. r.0) q in
          rw (first, set_up_driver)
            (fallback-IsUp (detect driver bitrates s).1 (ap (λ r. law.phase (r.1)) q ∙ f))

  -- The set-up has succeeded, and the driver runs; or it has failed, and nothing of it is left.
  abbrev pub IsClean : Bool × CanManager × S → Type 0
  IsClean r =
      ((b : ℕ) × (r.0 ≡ true)
        × ((r.1).is_initialized ≡ true)
        × ((r.1).mutex ≡ true)
        × (law.phase (r.2) ≡ running b))
      ⊎ ((r.0 ≡ false)
          × ((r.1).is_initialized ≡ false)
          × ((r.1).mutex ≡ false)
          × (law.phase (r.2) ≡ absent))

  -- With a driver that does what is documented, and that is absent: if the set-up of a manager that has not been set up
  -- answers true, the manager is set up, the mutex exists and the driver runs; if it answers false, the manager is not,
  -- no mutex is left and the driver is absent again, so that the set-up can be repeated.
  pub begin-IsClean :
      (created : Bool) (m : CanManager) (s : S)
      → m.is_initialized ≡ false
      → law.phase s ≡ absent
      → IsClean (begin driver created m s)
  unfolding begin
  begin-IsClean created m s i e =
      subst
        (λ b. IsClean (
          if b
          then (true, m, s)
          else if not created
          then (false, record m { mutex = false }, s)
          else ended (set_up_driver driver s)))
        (sym i) (by_mutex created)
    where
      ended : Bool × S → Bool × CanManager × S
      ended r =
          if r.0
          then (true, record m { mutex = true; is_initialized = true }, r.1)
          else (false, record m { mutex = false }, r.1)

      by_driver : (r : Bool × S) → IsUp r → IsClean (ended r)
      by_driver (true, t) (inl (b, a, f)) = inl (b, refl, refl, refl, f)
      by_driver (false, t) (inr (a, f)) = inr (refl, i, refl, f)
      by_driver (true, t) (inr (a, f)) = absurd (ground (arith, a))
      by_driver (false, t) (inl (b, a, f)) = absurd (ground (arith, a))

      by_mutex :
          (c : Bool)
          → IsClean (
              if not c
              then (false, record m { mutex = false }, s)
              else ended (set_up_driver driver s))
      by_mutex true = by_driver (set_up_driver driver s) (start_driver-IsUp s e)
      by_mutex false = inr (refl, i, refl, e)
