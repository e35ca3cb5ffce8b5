-- ===== src/Tests/Clocks.antt =====
-- The clock and the correlator on concrete inputs.
use kavach_npu.Prelude.{
  ℕ, ◌≡◌, ◌↔◌, refl, true, none, some, List, [], ◌∷◌, ◌++◌, ok, replicate, arith, map,
}
use kavach_npu.Prelude.Ascii.{uppercase}
use kavach_npu.Prelude.Int.{of_bits}
use kavach_npu.Wsl.Records.{delete}
use kavach_npu.Wsl.Path.{mnt_prefix}
use kavach_npu.Wsl.ClockSync.{
  ClockChallenge, ClockResponse, ClockSynchronizer, ClockOffsetEstimate, process_response,
  get_valid_estimate,
}
use kavach_npu.Wsl.ClockSync.Laws.{IsExchange, IsSynchronizer, exchanges, three_failures}
use kavach_npu.Wsl.ClockSync.Estimate.{IsEstimate, process-IsEstimate}
use kavach_npu.Wsl.Correlator.{
  WslCorrelator, new_correlator, correlate_guest_record, translate_mnt_to_windows_path, backslashed,
}
use kavach_npu.Wsl.Correlator.Laws.{
  IsMatch, Unique, IsCorrelator, guest_record, steps, allow_pid_enforcement_iff, new-IsCorrelator,
}
use kavach_npu.Wsl.Correlator.Paths.{Remainder, translate_iff}
use kavach_npu.Tests.Samples.{sample_record}

abbrev sample_challenge : ClockChallenge
sample_challenge = record { nonce = replicate 16 0x11; t0_host_monotonic_ns = 1000000000 }

abbrev sample_response : ClockResponse
sample_response = record {
  nonce = replicate 16 0x11;
  g1_guest_monotonic_ns = 504000000;
  g2_guest_monotonic_ns = 506000000;
}

abbrev sample_clock : ClockSynchronizer
sample_clock = record {
  distribution_id = replicate 16 0x55;
  accepted_samples = [];
  current_estimate = none;
  consecutive_failures = 0;
}

sample_clock-IsSynchronizer : IsSynchronizer sample_clock
sample_clock-IsSynchronizer = record { few = omega arith; quick = tt }

sample-IsExchange : IsExchange sample_challenge sample_response 1010000000
sample-IsExchange = record {
  same_nonce = refl;
  host_order = omega arith;
  guest_order = omega arith;
  short = omega arith;
}

process-IsEstimate_example :
    let (s', result) = process_response sample_clock sample_challenge sample_response 1010000000 in
    (est : ClockOffsetEstimate) × (result ≡ ok est)
    × (s'.current_estimate ≡ some est)
    × (s'.consecutive_failures ≡ 0)
    × IsEstimate s'.accepted_samples est
process-IsEstimate_example =
    process-IsEstimate sample_clock sample_challenge sample_response 1010000000 sample-IsExchange

abbrev sample_estimate : ClockOffsetEstimate
sample_estimate = record {
  distribution_id = replicate 16 0x55;
  offset_ns = of_bits 500000000;
  uncertainty_ns = 5000000;
  accepted_at_host_monotonic_ns = 1010000000;
  valid_until_host_monotonic_ns = 91010000000;
}

abbrev late : ClockChallenge × ClockResponse × ℕ
late = (sample_challenge, sample_response, 1101000000)

late_rejected : ¬ IsExchange sample_challenge sample_response 1101000000
late_rejected x = omega (arith, x.short)

three_failures_example :
    get_valid_estimate
      (exchanges
        (record sample_clock { current_estimate = some sample_estimate })
        (late ∷ late ∷ late ∷ []))
      1200000000
    ≡ none
three_failures_example =
    three_failures (record sample_clock { current_estimate = some sample_estimate })
      (late ∷ late ∷ late ∷ []) 1200000000 (late_rejected, (late_rejected, (late_rejected, tt)))
      (omega arith) (omega arith)

-- A correlator with an estimate of the guest's clock and one host event, on C:\a.
abbrev synced_correlator : WslCorrelator
synced_correlator = record {
  clock_sync = record sample_clock { current_estimate = some sample_estimate };
  guest_records = [];
  host_events =
      record {
        host_timestamp_ns = 512345678;
        canonical_windows_path = b'C' ∷ b':' ∷ b'\\' ∷ b'a' ∷ [];
        is_vmmem_process = true;
        bytes_written = 4096;
      }
      ∷ [];
  correlation_window_ms = 250;
}

allow_pid_enforcement_iff_example :
    ((correlate_guest_record synced_correlator
        (record sample_record { operation = delete })
        2000000000).1.allow_pid_enforcement
      ≡ true)
    ↔ ((est : ClockOffsetEstimate) × (get_valid_estimate synced_correlator.clock_sync 2000000000
          ≡ some est)
        × Unique (IsMatch synced_correlator sample_record est) synced_correlator.host_events)
allow_pid_enforcement_iff_example =
    allow_pid_enforcement_iff synced_correlator sample_record delete 2000000000

new-IsCorrelator_example :
    IsCorrelator (steps (new_correlator (replicate 16 0) 900) (guest_record sample_record 5 ∷ []))
new-IsCorrelator_example = new-IsCorrelator (replicate 16 0) 900 (guest_record sample_record 5 ∷ [])

translate_iff_example :
    (translate_mnt_to_windows_path (mnt_prefix ++ (b'c' ∷ [])) ≡ some (b'C' ∷ b':' ∷ b'\\' ∷ []))
    ↔ ((d : ℕ) × (rest : List ℕ) × Remainder d rest (b'c' ∷ [])
        × (mnt_prefix ++ (b'c' ∷ []) ≡ mnt_prefix ++ (b'c' ∷ []))
        × (b'C' ∷ b':' ∷ b'\\' ∷ [] ≡ uppercase d ∷ b':' ∷ b'\\' ∷ map backslashed rest))
translate_iff_example = translate_iff (mnt_prefix ++ (b'c' ∷ [])) (b'C' ∷ b':' ∷ b'\\' ∷ [])
