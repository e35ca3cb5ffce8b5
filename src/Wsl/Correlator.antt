-- ===== src/Wsl/Correlator.antt =====
-- crates/kavach-wsl/src/correlator.rs: guest writes matched with the host's file events.
-- A path is the list of its bytes.
pub mod Laws
pub mod Paths
use kavach_npu.Prelude.{
  ℕ, ◌+◌, ◌-◌, ◌*◌, ◌/◌, ◌%◌, ◌^◌, Bool, true, false, not, ◌&&◌, List, [], ◌∷◌, ◌++◌, map, Option,
  none, some, ltb, leb, ◌==◌, if◌then◌else◌, length, drop, filter, head?, min,
}
use kavach_npu.Prelude.Ascii.{uppercase, eq_ignore_ascii_case}
use kavach_npu.Prelude.Int.{to_bits}
use kavach_npu.Wsl.Records.{GuestWriteRecord}
use kavach_npu.Wsl.Path.{starts_with, mnt_prefix, slash, is_empty}
use kavach_npu.Wsl.ClockSync.{
  ClockSynchronizer, ClockOffsetEstimate, new_synchronizer, get_valid_estimate,
}

abbrev pub max_correlation_window_ms : ℕ
max_correlation_window_ms = 250

pub data AttributionConfidence : Type 0 where
  high medium low : AttributionConfidence

pub record HostFileEvent : Type 0 where
  pub host_timestamp_ns : ℕ
  pub canonical_windows_path : List ℕ
  pub is_vmmem_process : Bool
  pub bytes_written : ℕ

pub record WslAttributionResult : Type 0 where
  pub guest_process_id : ℕ
  pub distribution_id : List ℕ
  pub normalized_path : List ℕ
  pub canonical_windows_path : List ℕ
  pub confidence : AttributionConfidence
  pub correlation_delta_ms : ℕ
  pub allow_pid_enforcement : Bool

pub record WslCorrelator : Type 0 where
  pub clock_sync : ClockSynchronizer
  pub guest_records : List GuestWriteRecord
  pub host_events : List HostFileEvent
  pub correlation_window_ms : ℕ

-- `splitn(2, '/')`: what stands before the first slash, and what after it, if there is one.
unfoldable pub split_slash : List ℕ → List ℕ × Option (List ℕ)
split_slash [] = ([], none)
split_slash (c ∷ cs) =
    let (before, after) = split_slash cs in
    if c == slash then ([], some cs) else (c ∷ before, after)

-- `'/'` to `'\\'`
abbrev pub backslashed : ℕ → ℕ
backslashed c = if c == slash then b'\\' else c

-- `drive_str.len() == 1`, and its one character.
abbrev pub windows_path : List ℕ → Option (List ℕ) → Option (List ℕ)
windows_path [] rest = none
windows_path (d ∷ e ∷ drive) rest = none
windows_path (d ∷ []) none = some (uppercase d ∷ b':' ∷ b'\\' ∷ [])
windows_path (d ∷ []) (some rest) =
    some (uppercase d ∷ b':' ∷ b'\\' ∷ (if is_empty rest then [] else map backslashed rest))

unfoldable pub translate_mnt_to_windows_path : List ℕ → Option (List ℕ)
translate_mnt_to_windows_path mnt_path =
    if not (starts_with mnt_prefix mnt_path)
    then none
    else let (drive, rest) = split_slash (drop (length mnt_prefix) mnt_path) in
      windows_path drive rest

-- `unwrap_or_else`
abbrev pub or_else : Option (List ℕ) → List ℕ → List ℕ
or_else none d = d
or_else (some p) d = p

abbrev pub translated : GuestWriteRecord → List ℕ
translated r = or_else (translate_mnt_to_windows_path r.normalized_path) r.normalized_path

unfoldable pub new_correlator : List ℕ → ℕ → WslCorrelator
new_correlator id window = record {
  clock_sync = new_synchronizer id;
  guest_records = [];
  host_events = [];
  correlation_window_ms = min window max_correlation_window_ms;
}

-- `push_back`, and `pop_front` where that makes more than 1000.
unfoldable pub push_bounded {ℓ} : {A : Type ℓ} → List A → A → List A
push_bounded xs x =
    let longer = xs ++ (x ∷ []) in if ltb 1000 (length longer) then drop 1 longer else longer

unfoldable pub record_host_event : WslCorrelator → HostFileEvent → WslCorrelator
record_host_event k event = record k { host_events = push_bounded k.host_events event }

-- `u64::abs_diff`
abbrev pub abs_diff : ℕ → ℕ → ℕ
abs_diff a b = if leb a b then b - a else a - b

-- The guest's time on the host's clock: `(guest + offset) as u64`.
abbrev pub adjusted_host_ts : GuestWriteRecord → ClockOffsetEstimate → ℕ
adjusted_host_ts r est = (r.guest_monotonic_ns + to_bits est.offset_ns) % 2 ^ 64

abbrev pub is_match : WslCorrelator → GuestWriteRecord → ClockOffsetEstimate → HostFileEvent → Bool
is_match k r est he =
    eq_ignore_ascii_case he.canonical_windows_path (translated r)
    && leb (abs_diff he.host_timestamp_ns (adjusted_host_ts r est))
        (k.correlation_window_ms * 1000000)

-- The `Vec` of the matching events.
unfoldable pub matching :
    WslCorrelator → GuestWriteRecord → ClockOffsetEstimate → List HostFileEvent
matching k r est = filter (is_match k r est) k.host_events

abbrev pub delta_of : List HostFileEvent → ℕ → ℕ
delta_of [] ts = 0
delta_of (he ∷ hes) ts = abs_diff he.host_timestamp_ns ts / 1000000

unfoldable pub confidence_of : List HostFileEvent → ClockOffsetEstimate → AttributionConfidence
confidence_of [] est = low
confidence_of (he ∷ []) est = if leb est.uncertainty_ns 50000000 then high else medium
confidence_of (he ∷ he' ∷ hes) est = medium

-- `match clock_estimate { .. }`
unfoldable pub classify :
    WslCorrelator → GuestWriteRecord → Option ClockOffsetEstimate → AttributionConfidence × ℕ
classify k r none = (low, 0)
classify k r (some est) =
    let matches = matching k r est in
    (confidence_of matches est, delta_of matches (adjusted_host_ts r est))

abbrev pub is_high : AttributionConfidence → Bool
is_high high = true
is_high medium = false
is_high low = false

unfoldable pub correlate_guest_record :
    WslCorrelator → GuestWriteRecord → ℕ → WslCorrelator × WslAttributionResult
correlate_guest_record k r now_host_ns =
    let (confidence, delta_ms) = classify k r (get_valid_estimate k.clock_sync now_host_ns) in
    (
      record k { guest_records = push_bounded k.guest_records r },
      record {
        guest_process_id = r.guest_process_id;
        distribution_id = r.distribution_id;
        normalized_path = r.normalized_path;
        canonical_windows_path = translated r;
        confidence = confidence;
        correlation_delta_ms = delta_ms;
        allow_pid_enforcement = is_high confidence;
      },
    )

unfoldable pub guest_record_count : WslCorrelator → ℕ
guest_record_count k = length k.guest_records
