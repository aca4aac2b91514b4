-- ===== src/Can/Begin.antt =====
-- `CanManager::begin` of ESP_AKS/lib/CanManager/CanManager.cpp: the bitrate is found by listening for a second at each
-- of three. The driver (TWAI) and its configuration, kept as the bitrate, are a parameter.
pub mod Driver
use tufan_aks.Base.{
  ℕ, Bool, true, false, not, if◌then◌else◌, List, [], ◌∷◌, Option, none, some, ◌≡◌, ◌⊎◌,
}
use tufan_aks.Can.{CanManager}

-- The answers are true for ESP_OK.
pub record TwaiDriver (S : Type 0) : Type 0 where
  pub driver_install : ℕ → S → Bool × S
  pub start : S → Bool × S
  pub receive : S → Bool × S
  pub stop : S → S
  pub driver_uninstall : S → S

abbrev pub bitrates : List ℕ
bitrates = 500 ∷ 125 ∷ 250 ∷ []

module _ {S : Type 0} (driver : TwaiDriver S) where
  -- A bitrate whose driver runs.
  pub listen : S → Bool × S
  listen s =
      let r = driver.receive s in
      if r.0 then (true, r.1) else (false, driver.driver_uninstall (driver.stop (r.1)))

  -- A bitrate whose driver is installed.
  pub start_and_listen : S → Bool × S
  start_and_listen s =
      let r = driver.start s in if r.0 then listen (r.1) else (false, driver.driver_uninstall (r.1))

  pub probe : ℕ → S → Bool × S
  probe bitrate s =
      let r = driver.driver_install bitrate s in
      if r.0 then start_and_listen (r.1) else (false, r.1)

  -- The loop: the bitrate found.
  pub detect : List ℕ → S → Option ℕ × S
  detect [] s = (none, s)
  detect (b ∷ bs) s = elim (probe b s).0 [
    | true ↦ (some b, (probe b s).1)
    | false ↦ detect bs (probe b s).1
  ]

  -- 500 kbit/s, if none was found.
  pub fallback : S → Bool × S
  fallback s =
      let r = driver.driver_install 500 s in
      if not (r.0)
      then (false, r.1)
      else (let t = driver.start (r.1) in
          if not (t.0) then (false, driver.driver_uninstall (t.1)) else (true, t.1))

  pub set_up_driver : S → Bool × S
  set_up_driver s = elim (detect bitrates s).0 [
    | some b ↦ (true, (detect bitrates s).1)
    | none ↦ fallback (detect bitrates s).1
  ]

  -- `created` is what xSemaphoreCreateMutex returns.
  unfoldable pub begin : Bool → CanManager → S → Bool × CanManager × S
  begin created m s =
      if m.is_initialized
      then (true, m, s)
      else if not created
      then (false, record m { mutex = false }, s)
      else (let r = set_up_driver s in
          if r.0
          then (true, record m { mutex = true; is_initialized = true }, r.1)
          else (false, record m { mutex = false }, r.1))
