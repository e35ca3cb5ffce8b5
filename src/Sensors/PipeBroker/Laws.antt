-- ===== src/Sensors/PipeBroker/Laws.antt =====
-- crates/kavach-sensors/src/pipe_broker.rs: which frames lead to an action on the host.
use kavach_npu.Prelude.{
  ℕ, ◌+◌, ◌^◌, ◌<◌, ◌≤◌, ◌≡◌, refl, ◌⊎◌, inl, inr, ◌↔◌, List, Result, ok, err, is_ok, All, ap, sym,
  ◌∙◌, [], ◌∷◌, false,
}
use kavach_npu.Prelude.Bytes.{IsByte}
use kavach_npu.Prelude.Dict.{Distinct, bytes_key}
use kavach_npu.Core.Contracts.{Verdict, IsVerdict, DispatchError}
use kavach_npu.Core.Wire.{WireError, from_slice, dispatch_error, to_wire}
use kavach_npu.Core.Wire.RoundTrip.{IsAcceptable, from_slice-to_wire}
use kavach_npu.Core.Wire.Sound.{from_slice_sound, to_wire-from_slice}
use kavach_npu.Firewall.Broker.{EnforcementBroker, EnforcedAction, evaluate_and_enforce}
use kavach_npu.Firewall.Broker.Gates.{IsAuthorized, evaluate-ok_iff, evaluate-enforced_action}
use kavach_npu.Firewall.Broker.Replay.{no_replay, run, Until}
use kavach_npu.Sensors.PipeBroker.{handle_frame, forget}

from_slice-cases :
    (frame : List ℕ)
    → ((v : Verdict) × (from_slice frame ≡ ok v)) ⊎ ((e : WireError) × (from_slice frame ≡ err e))
from_slice-cases frame = cases (from_slice frame)
  where
    cases :
        (r : Result WireError Verdict)
        → ((v : Verdict) × (r ≡ ok v)) ⊎ ((e : WireError) × (r ≡ err e))
    cases (ok v) = inl (v, refl)
    cases (err e) = inr (e, refl)

module _ (b : EnforcementBroker) (frame : List ℕ) (now : ℕ) where
  decoded :
      (v : Verdict)
      → from_slice frame ≡ ok v
      → handle_frame b frame now
        ≡ ((evaluate_and_enforce b v now).0, forget (evaluate_and_enforce b v now).1)
  unfolding handle_frame
  decoded v e = rw (e, handle_frame)

  refused :
      (e : WireError)
      → from_slice frame ≡ err e
      → handle_frame b frame now ≡ (b, err (dispatch_error e))
  unfolding handle_frame
  refused e h = rw (h, handle_frame)

forget_inv :
    (r : Result DispatchError EnforcedAction) → forget r ≡ ok tt → (a : EnforcedAction) × (r ≡ ok a)
forget_inv (ok a) h = (a, refl)
forget_inv (err e) h = cc

is_ok-forget : (r : Result DispatchError EnforcedAction) → is_ok (forget r) ≡ is_ok r
is_ok-forget (ok a) = refl
is_ok-forget (err e) = refl

-- A frame that is acted on decodes, and the broker enforces what it decodes to.
acted_on :
    (b : EnforcementBroker) (frame : List ℕ) (now : ℕ)
    → (handle_frame b frame now).1 ≡ ok tt
    → (v : Verdict) × (a : EnforcedAction) × (from_slice frame ≡ ok v)
      × ((evaluate_and_enforce b v now).1 ≡ ok a)
acted_on b frame now h = elim (from_slice-cases frame) [
  | inl (v, e) ↦
      let (a, done) = forget_inv _ (sym (ap (λ p. p.1) (decoded b frame now v e)) ∙ h) in
      (v, a, e, done)
  | inr (x, e) ↦ cc (ap (λ p. p.1) (refused b frame now x e), h)
]

-- A frame of bytes is acted on exactly when it is the encoding of a verdict whose fields fit, that
-- meets the decoder's demands, and that the broker's policy authorizes at that time.
pub handle_frame-ok_iff :
    (b : EnforcementBroker) (frame : List ℕ) (now : ℕ)
    → Distinct b.replay_cache
    → All IsByte frame
    → ((handle_frame b frame now).1 ≡ ok tt)
      ↔ ((v : Verdict) × (frame ≡ to_wire v) × IsVerdict v × IsAcceptable v × IsAuthorized b v now)
handle_frame-ok_iff b frame now d bytes = (
  λ h.
      let (v, a, e, done) = acted_on b frame now h in
      let (fits, acc) = from_slice_sound frame v bytes e in
      (
        v,
        sym (to_wire-from_slice frame v bytes e),
        fits,
        acc,
        ((evaluate-ok_iff b now d v a).0 done).0,
      ),
  λ (v, same, fits, acc, auth).
      let e : from_slice frame ≡ ok v = rw same (from_slice-to_wire v fits acc) in
      let done = evaluate-enforced_action b now d v auth in
      ap (λ p. p.1) (decoded b frame now v e) ∙ ap forget done,
)

-- Frames as they arrive, each with the broker's clock.
unfoldable pub run_frames : EnforcementBroker → List (List ℕ × ℕ) → EnforcementBroker
run_frames b [] = b
run_frames b ((frame, now) ∷ rest) = run_frames (handle_frame b frame now).0 rest

-- The verdicts of the frames that decode.
abbrev verdicts_step : Result WireError Verdict → ℕ → List (Verdict × ℕ) → List (Verdict × ℕ)
verdicts_step (ok v) now rest = (v, now) ∷ rest
verdicts_step (err e) now rest = rest

verdicts : List (List ℕ × ℕ) → List (Verdict × ℕ)
verdicts [] = []
verdicts ((frame, now) ∷ rest) = verdicts_step (from_slice frame) now (verdicts rest)

abbrev pub FrameUntil : ℕ → List ℕ × ℕ → Type 0
FrameUntil limit (frame, now) = now ≤ limit

verdicts-Until :
    (limit : ℕ) (frames : List (List ℕ × ℕ))
    → All (FrameUntil limit) frames
    → All (Until limit) (verdicts frames)
unfolding verdicts
verdicts-Until limit [] h = tt
verdicts-Until limit ((frame, now) ∷ rest) (t, h) = elim (from_slice-cases frame) [
  | inl (v, e) ↦ rw e (t, verdicts-Until limit rest h)
  | inr (x, e) ↦ rw e (verdicts-Until limit rest h)
]

run_frames-run :
    (b : EnforcementBroker) (frames : List (List ℕ × ℕ))
    → run_frames b frames ≡ run b (verdicts frames)
unfolding run_frames run verdicts
run_frames-run b [] = refl
run_frames-run b ((frame, now) ∷ rest) = elim (from_slice-cases frame) [
  | inl (v, e) ↦
      run_frames-run (handle_frame b frame now).0 rest
      ∙ ap (λ c. run c (verdicts rest)) (ap (λ p. p.0) (decoded b frame now v e))
      ∙ rw e
  | inr (x, e) ↦
      run_frames-run (handle_frame b frame now).0 rest
      ∙ ap (λ c. run c (verdicts rest)) (ap (λ p. p.0) (refused b frame now x e))
      ∙ rw e
]

-- A frame that was acted on is not acted on a second time while the clock stays within its
-- verdict's expiry and 60 seconds, whatever frames arrive in between; this for an expiry for which
-- that sum fits 64 bits.
pub frame_no_replay :
    (b : EnforcementBroker) (v : Verdict) (frame : List ℕ) (now later : ℕ)
    (frames : List (List ℕ × ℕ))
    → Distinct b.replay_cache
    → from_slice frame ≡ ok v
    → v.expires_at_unix_ms + 60000 < 2 ^ 64
    → (handle_frame b frame now).1 ≡ ok tt
    → All (FrameUntil (v.expires_at_unix_ms + 60000)) frames
    → later ≤ v.expires_at_unix_ms + 60000
    → is_ok (handle_frame (run_frames (handle_frame b frame now).0 frames) frame later).1 ≡ false
frame_no_replay b v frame now later frames d e fits h times late =
    let b1 = (evaluate_and_enforce b v now).0 in
    let first = ap (λ p. p.0) (decoded b frame now v e) in
    let (a, done) = forget_inv _ (sym (ap (λ p. p.1) (decoded b frame now v e)) ∙ h) in
    let there : run_frames (handle_frame b frame now).0 frames ≡ run b1 (verdicts frames) =
      ap (λ c. run_frames c frames) first ∙ run_frames-run b1 frames in
    ap (λ c. is_ok (handle_frame c frame later).1) there
    ∙ ap (λ p. is_ok p.1) (decoded (run b1 (verdicts frames)) frame later v e)
    ∙ is_ok-forget (evaluate_and_enforce (run b1 (verdicts frames)) v later).1
    ∙ no_replay b v v now later a (verdicts frames) d fits done
        (verdicts-Until (v.expires_at_unix_ms + 60000) frames times) refl late
