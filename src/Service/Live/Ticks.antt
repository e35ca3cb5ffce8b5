-- ===== src/Service/Live/Ticks.antt =====
-- How long the live loop runs, and what becomes of its verdicts.
use kavach_npu.Prelude.{
  ℕ, zero, suc, ◌+◌, ◌*◌, ◌%◌, ◌^◌, ◌<◌, ◌≡◌, refl, sym, ap, subst, ◌∙◌, Bool, true, false, not,
  ◌&&◌, List, [], ◌∷◌, none, some, ok, is_ok, ltb, iterate, replicate, All, arith,
}
use kavach_npu.Prelude.Dict.{Distinct, bytes_key}
use kavach_npu.Core.Config.{KavachConfig}
use kavach_npu.Core.Contracts.{Verdict}
use kavach_npu.Firewall.Broker.{EnforcementBroker, EnforcedAction, evaluate_and_enforce}
use kavach_npu.Firewall.Broker.Replay.{run, Until, no_replay}
use kavach_npu.Service.Live.{live_verdict, with_tick, live_loop}

live_loop-stops :
    (continuous : Bool) (max_ticks fuel tick : ℕ)
    → (not continuous && ltb max_ticks ((tick + 1) % 2 ^ 64)) ≡ true
    → live_loop continuous max_ticks (suc fuel) tick ≡ some []
unfolding live_loop
live_loop-stops continuous max_ticks fuel tick e = rw (live_loop, e) refl

live_loop-goes_on :
    (continuous : Bool) (max_ticks fuel tick : ℕ)
    → (not continuous && ltb max_ticks ((tick + 1) % 2 ^ 64)) ≡ false
    → live_loop continuous max_ticks (suc fuel) tick
      ≡ with_tick ((tick + 1) % 2 ^ 64) (live_loop continuous max_ticks fuel ((tick + 1) % 2 ^ 64))
unfolding live_loop
live_loop-goes_on continuous max_ticks fuel tick e = rw (live_loop, e) refl

bounded_from :
    (k max_ticks tick : ℕ)
    → tick + k ≡ max_ticks
    → max_ticks + 1 < 2 ^ 64
    → live_loop false max_ticks (suc k) tick ≡ some (iterate suc (suc tick) k)
bounded_from zero max_ticks tick h small =
    live_loop-stops false max_ticks zero tick (ground (arith, h, small))
bounded_from (suc k) max_ticks tick h small =
    let next : (tick + 1) % 2 ^ 64 ≡ suc tick = omega arith in
    live_loop-goes_on false max_ticks (suc k) tick (ground (arith, h, small))
    ∙ ap (λ n. with_tick n (live_loop false max_ticks (suc k) n)) next
    ∙ ap (with_tick (suc tick)) (bounded_from k max_ticks (suc tick) (omega arith) small)

never_from : (fuel max_ticks tick : ℕ) → live_loop true max_ticks fuel tick ≡ none
unfolding live_loop
never_from zero max_ticks tick = refl
never_from (suc fuel) max_ticks tick =
    ap (with_tick ((tick + 1) % 2 ^ 64)) (never_from fuel max_ticks ((tick + 1) % 2 ^ 64))

-- A loop that is not continuous ends after exactly the ticks from 1 to its bound, if the bound and
-- one more fit 64 bits; a continuous one never ends.
pub live_loop_ends :
    (max_ticks : ℕ)
    → max_ticks + 1 < 2 ^ 64
    → (live_loop false max_ticks (max_ticks + 1) 0 ≡ some (iterate suc 1 max_ticks))
      × ((fuel : ℕ) → live_loop true max_ticks fuel 0 ≡ none)
live_loop_ends max_ticks small = (
  ap (λ fuel. live_loop false max_ticks fuel 0) (omega arith)
      ∙ bounded_from max_ticks max_ticks 0 (omega arith) small,
  λ fuel. never_from fuel max_ticks 0,
)

-- Once the verdict of a tick is enforced, the verdict of the 256th tick behind it, 25.6 seconds later
-- by the loop's clock, is refused, whatever the broker sees in between within that clock's 70
-- seconds: its nonce is the same.
pub live_verdicts_collide :
    (b : EnforcementBroker) (config : KavachConfig) (start_ts tick : ℕ) (a : EnforcedAction)
    (calls : List (Verdict × ℕ))
    → Distinct b.replay_cache
    → start_ts + tick * 100 + 70000 < 2 ^ 64
    → let now = start_ts + tick * 100 in
      (evaluate_and_enforce b (live_verdict config start_ts tick) now).1 ≡ ok a
      → All (Until (now + 70000)) calls
      → is_ok
          (evaluate_and_enforce
            (run (evaluate_and_enforce b (live_verdict config start_ts tick) now).0 calls)
            (live_verdict config start_ts (tick + 256))
            (start_ts + (tick + 256) * 100)).1
        ≡ false
unfolding live_verdict
live_verdicts_collide b config start_ts tick a calls d small h times =
    let v = live_verdict config start_ts tick in
    let w = live_verdict config start_ts (tick + 256) in
    let expiry : v.expires_at_unix_ms + 60000 ≡ start_ts + tick * 100 + 70000 = omega arith in
    let again : (tick + 256) % 256 ≡ tick % 256 = omega arith in
    no_replay b v w (start_ts + tick * 100) (start_ts + (tick + 256) * 100) a calls d
      (omega (arith, expiry)) h (subst (λ limit. All (Until limit) calls) (sym expiry) times)
      (ap (λ n. n ∷ replicate 15 0) again) (omega (arith, expiry))
