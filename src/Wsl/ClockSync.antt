-- ===== src/Wsl/ClockSync.antt =====
-- crates/kavach-wsl/src/clock_sync.rs: the host's estimate of the guest's clock.
-- An i64 is an integer that `as_i64` keeps in range; sums of u64 are taken modulo 2^64.
pub mod Laws
pub mod Estimate
use kavach_npu.Prelude.{
  ℕ, ◌+◌, ◌-◌, ◌/◌, ◌%◌, ◌^◌, Bool, true, false, not, ◌||◌, List, [], ◌∷◌, ◌++◌, Option, none, some,
  Result, ok, err, ltb, leb, ◌==◌, if◌then◌else◌, length, drop,
}
use kavach_npu.Prelude.Bytes.{bytes_eq}
use kavach_npu.Prelude.Int.{ℤ, difference, as_i64, sub_i64, unsigned_abs, le_int}

pub record ClockOffsetEstimate : Type 0 where
  pub distribution_id : List ℕ
  pub offset_ns : ℤ
  pub uncertainty_ns : ℕ
  pub accepted_at_host_monotonic_ns : ℕ
  pub valid_until_host_monotonic_ns : ℕ

abbrev pub max_rtt_ns : ℕ
max_rtt_ns = 100000000

abbrev pub max_acceptable_uncertainty_ns : ℕ
max_acceptable_uncertainty_ns = 50000000

abbrev pub clock_sync_validity_ns : ℕ
clock_sync_validity_ns = 90000000000

pub record ClockChallenge : Type 0 where
  pub nonce : List ℕ
  pub t0_host_monotonic_ns : ℕ

pub record ClockResponse : Type 0 where
  pub nonce : List ℕ
  pub g1_guest_monotonic_ns : ℕ
  pub g2_guest_monotonic_ns : ℕ

pub record ClockSample : Type 0 where
  pub offset_ns : ℤ
  pub rtt_ns : ℕ
  pub host_timestamp_ns : ℕ

pub record ClockSynchronizer : Type 0 where
  pub distribution_id : List ℕ
  pub accepted_samples : List ClockSample
  pub current_estimate : Option ClockOffsetEstimate
  pub consecutive_failures : ℕ

pub data ClockSyncError : Type 0 where
  nonce_mismatch non_monotonic_timestamps : ClockSyncError
  rtt_too_high : (rtt_ns limit_ns : ℕ) → ClockSyncError

unfoldable pub new_synchronizer : List ℕ → ClockSynchronizer
new_synchronizer id = record {
  distribution_id = id;
  accepted_samples = [];
  current_estimate = none;
  consecutive_failures = 0;
}

-- Over the samples `xs` and after them `last`: `min_by_key(|s| s.rtt_ns)`, the first of the least.
unfoldable pub best_sample : List ClockSample → ClockSample → ClockSample
best_sample [] last = last
best_sample (x ∷ xs) last =
    let best = best_sample xs last in if leb x.rtt_ns best.rtt_ns then x else best

-- `map(|s| s.offset_ns).min()`
unfoldable pub min_offset : List ClockSample → ClockSample → ℤ
min_offset [] last = last.offset_ns
min_offset (x ∷ xs) last =
    let least = min_offset xs last in if le_int x.offset_ns least then x.offset_ns else least

-- `map(|s| s.offset_ns).max()`
unfoldable pub max_offset : List ClockSample → ClockSample → ℤ
max_offset [] last = last.offset_ns
max_offset (x ∷ xs) last =
    let most = max_offset xs last in if le_int most x.offset_ns then x.offset_ns else most

-- Step 4: host midpoint less guest midpoint.
abbrev pub exchange_offset : ClockChallenge → ClockResponse → ℕ → ℤ
exchange_offset c r t3 = as_i64 (
    difference ((c.t0_host_monotonic_ns + t3) / 2)
      ((r.g1_guest_monotonic_ns + r.g2_guest_monotonic_ns) / 2))

-- The buffer's oldest sample makes room where there are five.
abbrev pub make_room : List ClockSample → List ClockSample
make_room samples = if length samples == 5 then drop 1 samples else samples

-- Step 5, of the samples `old` and the new one.
unfoldable pub estimate_of : List ℕ → List ClockSample → ClockSample → ClockOffsetEstimate
estimate_of id old new = record {
  distribution_id = id;
  offset_ns = (best_sample old new).offset_ns;
  uncertainty_ns =
      (best_sample old new).rtt_ns / 2
      + unsigned_abs (sub_i64 (max_offset old new) (min_offset old new)) / 2;
  accepted_at_host_monotonic_ns = new.host_timestamp_ns;
  valid_until_host_monotonic_ns = (new.host_timestamp_ns + clock_sync_validity_ns) % 2 ^ 64;
}

-- `self.consecutive_failures += 1`
abbrev pub failed : ClockSynchronizer → ClockSynchronizer
failed s = record s { consecutive_failures = (s.consecutive_failures + 1) % 2 ^ 64 }

-- From step 4 on, for an exchange that passed the checks.
unfoldable pub accept :
    ClockSynchronizer → ClockChallenge → ClockResponse → ℕ → ClockSynchronizer × ClockOffsetEstimate
accept s c r t3 =
    let new : ClockSample = record {
      offset_ns = exchange_offset c r t3;
      rtt_ns = t3 - c.t0_host_monotonic_ns;
      host_timestamp_ns = t3;
    } in
    let old = make_room s.accepted_samples in
    let estimate = estimate_of s.distribution_id old new in
    (
      record s {
        accepted_samples = old ++ (new ∷ []);
        current_estimate = some estimate;
        consecutive_failures = 0;
      },
      estimate,
    )

unfoldable pub process_response :
    ClockSynchronizer
    → ClockChallenge
    → ClockResponse
    → ℕ
    → ClockSynchronizer × Result ClockSyncError ClockOffsetEstimate
process_response s c r t3 =
    if not (bytes_eq c.nonce r.nonce)
    then (failed s, err nonce_mismatch)
    else if leb t3 c.t0_host_monotonic_ns || ltb r.g2_guest_monotonic_ns r.g1_guest_monotonic_ns
    then (failed s, err non_monotonic_timestamps)
    else if ltb max_rtt_ns (t3 - c.t0_host_monotonic_ns)
    then (failed s, err (rtt_too_high (t3 - c.t0_host_monotonic_ns) max_rtt_ns))
    else let (s', estimate) = accept s c r t3 in (s', ok estimate)

unfoldable pub valid_estimate :
    ClockSynchronizer → ClockOffsetEstimate → ℕ → Option ClockOffsetEstimate
valid_estimate s est now =
    if ltb est.valid_until_host_monotonic_ns now
    then none
    else if ltb max_acceptable_uncertainty_ns est.uncertainty_ns
    then none
    else if leb 3 s.consecutive_failures
    then none
    else some est

unfoldable pub get_valid_estimate : ClockSynchronizer → ℕ → Option ClockOffsetEstimate
get_valid_estimate s now_host_monotonic_ns = elim s.current_estimate [
  | none ↦ none
  | some est ↦ valid_estimate s est now_host_monotonic_ns
]
