-- ===== src/Health/Laws.antt =====
-- What the probes of internal/health/health.go decide, and what they decide of a switch that
-- answers no request.
use arex.Prelude.{
  ℕ, ◌+◌, ◌-◌, ◌*◌, ◌≤◌, ◌<◌, ◌≡◌, ◌≢◌, ◌↔◌, refl, true, List, [], ◌∷◌, Memᴰ, arith, ltb, ap, ◌∙◌,
}
use arex.Prelude.Int.{pos, ltb_ℤ}
use arex.GoTime.{Time, Duration, times, times-pos, since, int64_half}
use arex.Collector.Output.{Decoder}
use arex.Collector.Data.{SwitchData}
use arex.Collector.Poll.{Runner}
use arex.Collector.Loop.{Signal, poll_loop}
use arex.Collector.Loop.Laws.{Refuses, poll_loop_attempt}
use arex.Health.{Checker, max_progress_age, all_progressing, live, ready}

-- Comparing a window below the int64 range with a difference of times is comparing numbers.
since_above : (w a b : ℕ) → w + 1 < int64_half → ltb_ℤ (pos w) (since a b) ≡ ltb w (a - b)
unfolding since
since_above w a b h = ground arith

since_below : (w a b : ℕ) → 0 < w → w + 1 < int64_half → ltb_ℤ (since a b) (pos w) ≡ ltb (a - b) w
unfolding since
since_below w a b p h = ground arith

-- A poller is cycling: its last attempt is within the window, or it has made none and the process
-- is younger than the window.
abbrev pub IsProgressing : {F : Type 0} → ℕ → Time → Time → SwitchData F → Type 0
IsProgressing window started now sw =
    (sw.last_attempt ≡ 0 → now - started < window)
    × (sw.last_attempt ≢ 0 → now - sw.last_attempt ≤ window)

module _ {F : Type 0} where
  all_progressing_sound :
      (w started now : ℕ) (switches : List (SwitchData F)) (sw : SwitchData F)
      → w + 1 < int64_half
      → all_progressing now (pos w) (ltb (now - started) w) switches ≡ true
      → Memᴰ sw switches
      → IsProgressing w started now sw
  unfolding all_progressing
  all_progressing_sound w started now [] sw small h mem = elim mem [ ]
  all_progressing_sound w started now (x ∷ xs) sw small h (Memᴰ.head e) = rw e (
    λ z. ground (arith, since_above w now x.last_attempt small),
    λ z. ground (arith, since_above w now x.last_attempt small),
  )
  all_progressing_sound w started now (x ∷ xs) sw small h (Memᴰ.tail t) =
      all_progressing_sound w started now xs sw small (ground arith) t

  all_progressing_complete :
      (w started now : ℕ) (switches : List (SwitchData F))
      → w + 1 < int64_half
      → ((sw : SwitchData F) → Memᴰ sw switches → IsProgressing w started now sw)
      → all_progressing now (pos w) (ltb (now - started) w) switches ≡ true
  unfolding all_progressing
  all_progressing_complete w started now [] small h = refl
  all_progressing_complete w started now (x ∷ xs) small h =
      let ih = all_progressing_complete w started now xs small (λ sw m. h sw (Memᴰ.tail m)) in
      let here = h x (Memᴰ.head refl) in
      ground (arith, ih, here, since_above w now x.last_attempt small)

  -- The probe /livez passes exactly if every switch's poller is progressing within ten poll
  -- intervals. The interval is positive and ten of them fit an int64.
  pub live_iff :
      (c : Checker) (i now : ℕ) (switches : List (SwitchData F))
      → c.interval ≡ pos i
      → 0 < i
      → 10 * i + 1 < int64_half
      → (live c switches now ≡ true)
        ↔ ((sw : SwitchData F) → Memᴰ sw switches → IsProgressing (10 * i) c.started now sw)
  unfolding live max_progress_age
  live_iff c i now switches e p small = rw (ap (times 10) e ∙ times-pos 10 i (omega arith)) (
      rw (since_below (10 * i) now c.started (omega arith) small) (
        λ h sw m. all_progressing_sound (10 * i) c.started now switches sw small h m,
        all_progressing_complete (10 * i) c.started now switches small,
      ))

  ready_sound :
      (switches : List (SwitchData F)) (sw : SwitchData F)
      → ready switches ≡ true
      → Memᴰ sw switches
      → sw.last_attempt ≢ 0
  unfolding ready
  ready_sound [] sw h mem = elim mem [ ]
  ready_sound (x ∷ xs) sw h (Memᴰ.head e) = rw e (ground arith)
  ready_sound (x ∷ xs) sw h (Memᴰ.tail t) = ready_sound xs sw (ground arith) t

  ready_complete :
      (switches : List (SwitchData F))
      → ((sw : SwitchData F) → Memᴰ sw switches → sw.last_attempt ≢ 0)
      → ready switches ≡ true
  unfolding ready
  ready_complete [] h = refl
  ready_complete (x ∷ xs) h =
      ground (arith, h x (Memᴰ.head refl), ready_complete xs (λ sw m. h sw (Memᴰ.tail m)))

  -- The probe /readyz passes exactly if every switch has an attempt recorded.
  pub ready_iff :
      (switches : List (SwitchData F))
      → (ready switches ≡ true) ↔ ((sw : SwitchData F) → Memᴰ sw switches → sw.last_attempt ≢ 0)
  ready_iff switches = (λ h sw m. ready_sound switches sw h m, ready_complete switches)

module _ {F W : Type 0} (r : Runner W) (dec : Decoder F) (z : F) (no_answer : Refuses r) where
  -- A switch that answers no request, with no attempt recorded before, fails the probe /livez from
  -- ten poll intervals after the start on, however it was polled. The interval is positive and ten
  -- of them fit an int64.
  pub refusing_fails_live :
      (before : SwitchData F) (offset : Duration) (signals : List Signal) (w : W)
      (switches : List (SwitchData F)) (c : Checker) (i now : ℕ)
      → before.last_attempt ≡ 0
      → Memᴰ (poll_loop r dec z before offset signals w).switch switches
      → c.interval ≡ pos i
      → 0 < i
      → 10 * i + 1 < int64_half
      → 10 * i ≤ now - c.started
      → live c switches now ≢ true
  refusing_fails_live before offset signals w switches c i now fresh mem e p small late h =
      let sw = (poll_loop r dec z before offset signals w).switch in
      let progress = (live_iff c i now switches e p small).0 h sw mem in
      let none_yet = poll_loop_attempt r dec z no_answer before offset signals w ∙ fresh in
      absurd (omega (arith, progress.0 none_yet))

  -- Nor does the probe /readyz ever pass.
  pub refusing_fails_ready :
      (before : SwitchData F) (offset : Duration) (signals : List Signal) (w : W)
      (switches : List (SwitchData F))
      → before.last_attempt ≡ 0
      → Memᴰ (poll_loop r dec z before offset signals w).switch switches
      → ready switches ≢ true
  refusing_fails_ready before offset signals w switches fresh mem h =
      (ready_iff switches).0 h (poll_loop r dec z before offset signals w).switch mem
        (poll_loop_attempt r dec z no_answer before offset signals w ∙ fresh)
