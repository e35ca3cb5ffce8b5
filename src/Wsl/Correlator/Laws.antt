-- ===== src/Wsl/Correlator/Laws.antt =====
-- When a guest process may be acted on, and that the correlator's buffers are bounded.
use kavach_npu.Prelude.{
  ℕ, ◌+◌, ◌*◌, ◌/◌, ◌%◌, ◌^◌, ◌≤◌, ◌<◌, ◌≡◌, ◌↔◌, ◌⊎◌, refl, subst, ap, ◌∙◌, Bool, true, List, [],
  ◌∷◌, ◌++◌, Option, none, some, length, filter, All, length-append, length-drop, arith,
}
use kavach_npu.Prelude.Ascii.{eq_ignore_ascii_case_iff, lowercase}
use kavach_npu.Prelude.Int.{difference, to_bits, to_bits-of_bits, to_bits_lt, add-difference}
use kavach_npu.Prelude.{map}
use kavach_npu.Wsl.Records.{GuestFileOperation, GuestWriteRecord}
use kavach_npu.Wsl.ClockSync.{
  ClockOffsetEstimate, ClockChallenge, ClockResponse, get_valid_estimate, process_response,
  exchange_offset, new_synchronizer,
}
use kavach_npu.Wsl.ClockSync.Laws.{IsSynchronizer, get_valid_estimate_iff, process-IsSynchronizer}
use kavach_npu.Wsl.Correlator.{
  WslCorrelator, HostFileEvent, translated, new_correlator, push_bounded, record_host_event,
  abs_diff, adjusted_host_ts, is_match, matching, confidence_of, classify, is_high,
  correlate_guest_record,
}

-- The event names the record's file, but for ASCII case, and lies within the window around the
-- record's time on the host's clock.
abbrev pub IsMatch : WslCorrelator → GuestWriteRecord → ClockOffsetEstimate → HostFileEvent → Type 0
IsMatch k r est he =
    (map lowercase he.canonical_windows_path ≡ map lowercase (translated r))
    × (abs_diff he.host_timestamp_ns (adjusted_host_ts r est) ≤ k.correlation_window_ms * 1000000)

-- One event of the list matches, and no other.
abbrev pub Unique : (HostFileEvent → Type 0) → List HostFileEvent → Type 0
Unique P [] = ⊥
Unique P (he ∷ hes) = (P he × All (λ x. ¬ P x) hes) ⊎ ((¬ P he) × Unique P hes)

is_match_iff :
    (k : WslCorrelator) (r : GuestWriteRecord) (est : ClockOffsetEstimate) (he : HostFileEvent)
    → (is_match k r est he ≡ true) ↔ IsMatch k r est he
is_match_iff k r est he =
    ground (arith, eq_ignore_ascii_case_iff he.canonical_windows_path (translated r))

module _ (p : HostFileEvent → Bool) (P : HostFileEvent → Type 0)
    (h : (x : HostFileEvent) → (p x ≡ true) ↔ P x) where
  filter-empty_iff : (xs : List HostFileEvent) → (length (filter p xs) ≡ 0) ↔ All (λ x. ¬ P x) xs
  filter-empty_iff [] = (λ _. tt, λ _. refl)
  filter-empty_iff (x ∷ xs) = ground (arith, h x, filter-empty_iff xs)

  filter-one_iff : (xs : List HostFileEvent) → (length (filter p xs) ≡ 1) ↔ Unique P xs
  filter-one_iff [] = ground arith
  filter-one_iff (x ∷ xs) = ground (arith, h x, filter-one_iff xs, filter-empty_iff xs)

confidence-high_iff :
    (hes : List HostFileEvent) (est : ClockOffsetEstimate)
    → (is_high (confidence_of hes est) ≡ true)
      ↔ ((length hes ≡ 1) × (est.uncertainty_ns ≤ 50000000))
unfolding confidence_of
confidence-high_iff [] est = ground arith
confidence-high_iff (he ∷ []) est = ground arith
confidence-high_iff (he ∷ he' ∷ hes) est = ground arith

classify-high_iff :
    (k : WslCorrelator) (r : GuestWriteRecord) (o : Option ClockOffsetEstimate)
    → (is_high (classify k r o).0 ≡ true) ↔ (
        (est : ClockOffsetEstimate) × (o ≡ some est)
        × (est.uncertainty_ns ≤ 50000000)
        × Unique (IsMatch k r est) k.host_events)
unfolding classify matching
classify-high_iff k r none = ground arith
classify-high_iff k r (some est) = (
  λ h.
      let (one, sure) = (confidence-high_iff (matching k r est) est).0 h in
      (est, refl, sure, (unique est).0 one),
  λ (x, e, sure, u).
      let same : x ≡ est = cc e in
      (confidence-high_iff (matching k r est) est).1 (
        (unique est).1 (subst (λ y. Unique (IsMatch k r y) k.host_events) same u),
        subst (λ (y : ClockOffsetEstimate). y.uncertainty_ns ≤ 50000000) same sure,
      ),
)
  where
    unique :
        (est : ClockOffsetEstimate)
        → (length (filter (is_match k r est) k.host_events) ≡ 1)
          ↔ Unique (IsMatch k r est) k.host_events
    unique est =
        filter-one_iff (is_match k r est) (IsMatch k r est) (is_match_iff k r est) k.host_events

-- A guest process may be acted on exactly when the clock's estimate is valid and one buffered host
-- event, and no other, matches the record by its path and its time, whatever the record's operation.
pub allow_pid_enforcement_iff :
    (k : WslCorrelator) (r : GuestWriteRecord) (o : GuestFileOperation) (now : ℕ)
    → ((correlate_guest_record k (record r { operation = o }) now).1.allow_pid_enforcement ≡ true)
      ↔ ((est : ClockOffsetEstimate) × (get_valid_estimate k.clock_sync now ≡ some est)
          × Unique (IsMatch k r est) k.host_events)
unfolding correlate_guest_record
allow_pid_enforcement_iff k r o now =
    let r' = record r { operation = o } in
    (
      λ h.
          let (est, e, _, u) = (classify-high_iff k r' (get_valid_estimate k.clock_sync now)).0 h in
          (est, e, u),
      λ (est, e, u).
          let (_, _, sure, _) = (get_valid_estimate_iff k.clock_sync now est).0 e in
          (classify-high_iff k r' (get_valid_estimate k.clock_sync now)).1 (est, e, sure, u),
    )

-- The correlator's bounds: both buffers at most 1000, the window at most 250 ms, the clock's buffer
-- in its own.
pub record IsCorrelator (k : WslCorrelator) : Type 0 where
  pub clock : IsSynchronizer k.clock_sync
  pub few_records : length k.guest_records ≤ 1000
  pub few_events : length k.host_events ≤ 1000
  pub window : k.correlation_window_ms ≤ 250

length-push_bounded {ℓ} :
    {A : Type ℓ} (xs : List A) (x : A) → length xs ≤ 1000 → length (push_bounded xs x) ≤ 1000
unfolding push_bounded
length-push_bounded xs x h =
    ground (arith, length-append xs (x ∷ []), length-drop 1 (xs ++ (x ∷ [])))

pub data Call : Type 0 where
  host_event : HostFileEvent → Call
  guest_record : GuestWriteRecord → ℕ → Call
  clock_response : ClockChallenge → ClockResponse → ℕ → Call

unfoldable pub step : WslCorrelator → Call → WslCorrelator
step k (host_event he) = record_host_event k he
step k (guest_record r now) = (correlate_guest_record k r now).0
step k (clock_response c r t3) = record k { clock_sync = (process_response k.clock_sync c r t3).0 }

unfoldable pub steps : WslCorrelator → List Call → WslCorrelator
steps k [] = k
steps k (c ∷ cs) = steps (step k c) cs

step-IsCorrelator : (k : WslCorrelator) (c : Call) → IsCorrelator k → IsCorrelator (step k c)
unfolding step record_host_event correlate_guest_record
step-IsCorrelator k (host_event he) v = record {
  clock = v.clock;
  few_records = v.few_records;
  few_events = length-push_bounded k.host_events he v.few_events;
  window = v.window;
}
step-IsCorrelator k (guest_record r now) v = record {
  clock = v.clock;
  few_records = length-push_bounded k.guest_records r v.few_records;
  few_events = v.few_events;
  window = v.window;
}
step-IsCorrelator k (clock_response c r t3) v = record {
  clock = process-IsSynchronizer k.clock_sync c r t3 v.clock;
  few_records = v.few_records;
  few_events = v.few_events;
  window = v.window;
}

steps-IsCorrelator :
    (k : WslCorrelator) (cs : List Call) → IsCorrelator k → IsCorrelator (steps k cs)
unfolding steps
steps-IsCorrelator k [] v = v
steps-IsCorrelator k (c ∷ cs) v = steps-IsCorrelator (step k c) cs (step-IsCorrelator k c v)

-- Whatever calls a new correlator sees, its buffers hold at most 1000 entries each, its window is at
-- most 250 ms, and its clock keeps at most five samples.
pub new-IsCorrelator :
    (id : List ℕ) (window : ℕ) (cs : List Call) → IsCorrelator (steps (new_correlator id window) cs)
unfolding new_correlator new_synchronizer
new-IsCorrelator id window cs = steps-IsCorrelator _ cs (record {
  clock = record { few = omega arith; quick = tt };
  few_records = omega arith;
  few_events = omega arith;
  window = omega arith;
})

-- The offset of an exchange takes the guest's midpoint to the host's, modulo 2^64 and whatever the
-- two clocks show.
offset_adjusts :
    (c : ClockChallenge) (r : ClockResponse) (t3 : ℕ)
    → c.t0_host_monotonic_ns < 2 ^ 64
    → t3 < 2 ^ 64
    → r.g1_guest_monotonic_ns < 2 ^ 64
    → r.g2_guest_monotonic_ns < 2 ^ 64
    → ((r.g1_guest_monotonic_ns + r.g2_guest_monotonic_ns) / 2 + to_bits (exchange_offset c r t3))
        % 2 ^ 64
      ≡ (c.t0_host_monotonic_ns + t3) / 2
offset_adjusts c r t3 h0 h3 g1 g2 =
    let host = (c.t0_host_monotonic_ns + t3) / 2 in
    let guest = (r.g1_guest_monotonic_ns + r.g2_guest_monotonic_ns) / 2 in
    ap (λ b. (guest + b) % 2 ^ 64)
      (to_bits-of_bits (to_bits (difference host guest)) (to_bits_lt (difference host guest)))
    ∙ add-difference host guest (omega arith) (omega arith)
