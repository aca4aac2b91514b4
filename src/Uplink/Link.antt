-- ===== src/Uplink/Link.antt =====
-- The state machine of the radio link, `updateLink` of ESP_AKS/lib/LoraLink/UplinkScheduler.cpp.
use tufan_aks.Base.{
  ℕ, ◌+◌, ◌≡◌, ◌≢◌, refl, ◌<◌, ◌↔◌, ◌⊎◌, arith, Bool, true, false, not, ◌&&◌, ltb, if◌then◌else◌,
  ◌==◌, inl, inr, subst, sym, ◌∙◌,
}
use tufan_aks.Base.Words.{sub64, u64_mod}
use tufan_aks.Buffer.{Ring}
use tufan_aks.Uplink.{
  UplinkScheduler, LinkTransition, update_link, link_check_timeout,
  link_check_timeout_with_boot_grace,
}

timeout_heard :
    (now hb d timeout boot grace : ℕ)
    → hb ≢ 0
    → now ≡ hb + d
    → now < u64_mod
    → (link_check_timeout_with_boot_grace now hb timeout boot grace ≡ ltb timeout d)
unfolding link_check_timeout_with_boot_grace link_check_timeout
timeout_heard now hb d timeout boot grace h e lt =
    let s : sub64 now hb ≡ d = omega arith in ground arith

timeout_silent :
    (now d timeout boot grace : ℕ)
    → now ≡ boot + d
    → now < u64_mod
    → (link_check_timeout_with_boot_grace now 0 timeout boot grace ≡ ltb grace d)
unfolding link_check_timeout_with_boot_grace
timeout_silent now d timeout boot grace e lt =
    let s : sub64 now boot ≡ d = omega arith in ground arith

-- How the report of a step reads against the flag before and after it.
abbrev pub Reports : LinkTransition → Bool → Bool → Type 0
Reports t before after =
    (t.down_after ≡ after)
    × (t.became_down ≡ not before && after)
    × (t.became_up ≡ before && not after)
    × (t.changed ≡ (if before then not after else after))

abbrev next_flag : Bool → Bool → Bool → Bool
next_flag timeout down silent = if timeout then true else down && silent

abbrev Step : UplinkScheduler → Bool → LinkTransition × UplinkScheduler → Type 0
Step u after p = (UplinkScheduler.link_down (p.1) ≡ after) × Reports (p.0) u.link_down after

-- The step, as the timeout, the flag and the absence of heartbeats decide it.
update_link-Step :
    (now boot : ℕ) (r : Ring) (u : UplinkScheduler) (timeout down silent : Bool)
    → link_check_timeout_with_boot_grace now u.last_heartbeat u.link_timeout boot u.boot_grace
      ≡ timeout
    → u.link_down ≡ down
    → u.last_heartbeat == 0 ≡ silent
    → Step u (next_flag timeout down silent) (update_link now boot r u)
unfolding update_link
update_link-Step now boot r u true true silent e h z = rw (e, h) (refl, (refl, refl, refl, refl))
update_link-Step now boot r u true false silent e h z = rw (e, h) (refl, (refl, refl, refl, refl))
update_link-Step now boot r u false true true e h z = rw (e, h, z) (refl, (refl, refl, refl, refl))
update_link-Step now boot r u false true false e h z = rw (e, h, z) (refl, (refl, refl, refl, refl))
update_link-Step now boot r u false false silent e h z = rw (e, h) (refl, (refl, refl, refl, refl))

-- d is the time since the last heartbeat, or since the boot if there was none.
abbrev pub Elapsed : ℕ → ℕ → ℕ → ℕ → Type 0
Elapsed now boot d hb = ((hb ≢ 0) × (now ≡ hb + d)) ⊎ ((hb ≡ 0) × (now ≡ boot + d))

timeout_after :
    (now boot d : ℕ) (u : UplinkScheduler)
    → now < u64_mod
    → Elapsed now boot d u.last_heartbeat
    → link_check_timeout_with_boot_grace now u.last_heartbeat u.link_timeout boot u.boot_grace
      ≡ (if u.last_heartbeat == 0 then ltb u.boot_grace d else ltb u.link_timeout d)
timeout_after now boot d u lt (inl (h, e)) =
    timeout_heard now u.last_heartbeat d u.link_timeout boot u.boot_grace h e lt ∙ ground arith
timeout_after now boot d u lt (inr (h, e)) =
    rw h (timeout_silent now d u.link_timeout boot u.boot_grace e lt)

link_cases :
    (now boot d hb limit grace : ℕ) (timeout down after : Bool)
    → Elapsed now boot d hb
    → timeout ≡ (if hb == 0 then ltb grace d else ltb limit d)
    → after ≡ next_flag timeout down (hb == 0)
    → (after ≡ true) ↔ (((hb ≢ 0) × (limit < d)) ⊎ ((hb ≡ 0) × ((down ≡ true) ⊎ (grace < d))))
link_cases now boot d hb limit grace timeout down after (inl (h, e)) t a =
    (λ k. inl (h, ground arith), λ k. ground arith)
link_cases now boot d hb limit grace timeout down after (inr (h, e)) t a =
    (λ k. inr (h, ground arith), λ k. ground arith)

-- Before the 64-bit clock wraps. Once a heartbeat was received (at a time that is not 0), d
-- milliseconds ago, the link is down after a step exactly if d exceeds the timeout, whatever it
-- was before. If none was received, it is down after the step exactly if it was down before, or
-- more than the grace time has passed since the boot. In both cases the report says what has
-- changed.
pub link_iff :
    (now boot d : ℕ) (r : Ring) (u : UplinkScheduler)
    → now < u64_mod
    → Elapsed now boot d u.last_heartbeat
    → let s = (update_link now boot r u).1 in
      ((s.link_down ≡ true) ↔ (
        ((u.last_heartbeat ≢ 0) × (u.link_timeout < d))
        ⊎ ((u.last_heartbeat ≡ 0) × ((u.link_down ≡ true) ⊎ (u.boot_grace < d)))))
      × Reports (update_link now boot r u).0 u.link_down s.link_down
unfolding update_link
link_iff now boot d r u lt h =
    let timeout =
      link_check_timeout_with_boot_grace now u.last_heartbeat u.link_timeout boot u.boot_grace in
    let down = (update_link now boot r u).1.link_down in
    let s =
      update_link-Step now boot r u timeout u.link_down (u.last_heartbeat == 0) refl refl refl in
    (
      link_cases now boot d u.last_heartbeat u.link_timeout u.boot_grace timeout u.link_down down h
          (timeout_after now boot d u lt h) s.0,
      subst (Reports (update_link now boot r u).0 u.link_down) (sym s.0) s.1,
    )
