-- ===== src/Tests/Verdicts.antt =====
-- The verdict's wire form, the broker and the pipe on concrete inputs.
use kavach_npu.Prelude.{◌≡◌, refl, false, [], ◌∷◌, ok, err, is_ok, All, sym, ◌↔◌, replicate}
use kavach_npu.Prelude.Bytes.{IsByte, from_be, slice, byte_at, bytes_eq}
use kavach_npu.Prelude.Dict.{bytes_key, lookup, retain, contains}
use native.Mathlib.Omega.{arith}
use kavach_npu.Core.Contracts.{Verdict, IsVerdict, hard_kill, action_denied}
use kavach_npu.Core.Wire.{to_wire, from_slice, from_wire, action_of_byte}
use kavach_npu.Core.Wire.RoundTrip.{IsAcceptable, from_slice-to_wire}
use kavach_npu.Core.Wire.Sound.{to_wire-from_slice}
use kavach_npu.Firewall.Broker.{
  evaluate_and_enforce, policy_gates, action_gate, purge_expired_replay_cache, enforced_action,
  process_suspended,
}
use kavach_npu.Firewall.Broker.Gates.{
  IsAuthorized, CarriesOut, evaluate-ok_iff, evaluate-enforced_action,
}
use kavach_npu.Firewall.Broker.Replay.{run, no_replay, replay_after_wrap}
use kavach_npu.Sensors.PipeBroker.{handle_frame}
use kavach_npu.Sensors.PipeBroker.Laws.{run_frames, handle_frame-ok_iff, frame_no_replay}
use kavach_npu.Tests.Samples.{sample_verdict, last_verdict, sample_broker, sample_wire}

sample_fits : IsVerdict sample_verdict
sample_fits = omega arith

sample_acceptable : IsAcceptable sample_verdict
sample_acceptable = omega arith

sample_wire_bytes : All IsByte sample_wire
sample_wire_bytes = omega arith

sample_wire_decodes : from_slice sample_wire ≡ ok sample_verdict
unfolding from_slice from_wire from_be slice action_of_byte byte_at
sample_wire_decodes = refl

from_slice-to_wire_example : from_slice (to_wire sample_verdict) ≡ ok sample_verdict
from_slice-to_wire_example = from_slice-to_wire sample_verdict sample_fits sample_acceptable

to_wire-from_slice_example : to_wire sample_verdict ≡ sample_wire
to_wire-from_slice_example =
    to_wire-from_slice sample_wire sample_verdict sample_wire_bytes sample_wire_decodes

sample-IsAuthorized : IsAuthorized sample_broker sample_verdict 5000
unfolding lookup
sample-IsAuthorized = record {
  version = refl;
  no_flags = refl;
  in_time = omega arith;
  unseen = λ r h. cc h;
  generation = refl;
  healthy = refl;
  trusted = refl;
  allowed = omega arith;
}

last-IsAuthorized : IsAuthorized sample_broker last_verdict 60000
unfolding lookup
last-IsAuthorized = record {
  version = refl;
  no_flags = refl;
  in_time = omega arith;
  unseen = λ r h. cc h;
  generation = refl;
  healthy = refl;
  trusted = refl;
  allowed = omega arith;
}

suspends :
    (evaluate_and_enforce sample_broker sample_verdict 5000).1
    ≡ ok (enforced_action sample_verdict sample_verdict.requested_action)
suspends = evaluate-enforced_action sample_broker 5000 tt sample_verdict sample-IsAuthorized

evaluate-ok_iff_example :
    ((evaluate_and_enforce sample_broker sample_verdict 5000).1
      ≡ ok (process_suspended 100 (replicate 32 0x56)))
    ↔ (IsAuthorized sample_broker sample_verdict 5000
        × CarriesOut sample_verdict.requested_action sample_verdict
            (process_suspended 100 (replicate 32 0x56)))
evaluate-ok_iff_example =
    evaluate-ok_iff sample_broker 5000 tt sample_verdict (process_suspended 100 (replicate 32 0x56))

abbrev hard_verdict : Verdict
hard_verdict = record sample_verdict { requested_action = hard_kill }

no_replay_example :
    is_ok
      (evaluate_and_enforce
        (run (evaluate_and_enforce sample_broker sample_verdict 5000).0 ((hard_verdict, 6000) ∷ []))
        sample_verdict
        65000).1
    ≡ false
no_replay_example =
    no_replay sample_broker sample_verdict sample_verdict 5000 65000 _ ((hard_verdict, 6000) ∷ [])
      tt (omega arith) suspends (omega arith) refl (omega arith)

kill_refused : (evaluate_and_enforce sample_broker hard_verdict 5000).1 ≡ err action_denied
unfolding evaluate_and_enforce policy_gates action_gate purge_expired_replay_cache bytes_eq retain
    contains
kill_refused = refl

replay_after_wrap_example :
    (evaluate_and_enforce
      (evaluate_and_enforce sample_broker last_verdict 60000).0
      last_verdict
      60000).1
    ≡ ok (enforced_action last_verdict last_verdict.requested_action)
replay_after_wrap_example =
    replay_after_wrap sample_broker last_verdict 60000 tt last-IsAuthorized (omega arith)
      (omega arith) (omega arith)

handle_frame-ok_iff_example : ((handle_frame sample_broker sample_wire 5000).1 ≡ ok tt) ↔ (
    (v : Verdict) × (sample_wire ≡ to_wire v)
    × IsVerdict v
    × IsAcceptable v
    × IsAuthorized sample_broker v 5000)
handle_frame-ok_iff_example =
    handle_frame-ok_iff sample_broker sample_wire 5000 tt sample_wire_bytes

sample_frame_acted_on : (handle_frame sample_broker sample_wire 5000).1 ≡ ok tt
sample_frame_acted_on =
    (handle_frame-ok_iff sample_broker sample_wire 5000 tt sample_wire_bytes).1 (
      sample_verdict,
      sym to_wire-from_slice_again,
      sample_fits,
      sample_acceptable,
      sample-IsAuthorized,
    )
  where
    to_wire-from_slice_again : to_wire sample_verdict ≡ sample_wire
    to_wire-from_slice_again =
        to_wire-from_slice sample_wire sample_verdict sample_wire_bytes sample_wire_decodes

frame_no_replay_example :
    is_ok
      (handle_frame
        (run_frames (handle_frame sample_broker sample_wire 5000).0 ((sample_wire, 6000) ∷ []))
        sample_wire
        65000).1
    ≡ false
frame_no_replay_example =
    frame_no_replay sample_broker sample_verdict sample_wire 5000 65000 ((sample_wire, 6000) ∷ [])
      tt sample_wire_decodes (omega arith) sample_frame_acted_on (omega arith) (omega arith)
