-- ===== src/Tripwire/Window/History.antt =====
-- The window as a filter of the whole history of operations.
use mathlib.Core.List.{append-nil, append_assoc}
use kavach_npu.Prelude.{
  ℕ, ◌-◌, ◌≤◌, ◌≡◌, refl, sym, ap, ◌∙◌, Bool, List, [], ◌∷◌, ◌++◌, map, filter, filter-append,
  filter-filter, arith,
}
use kavach_npu.Prelude.Float.{Float, Floats}
use kavach_npu.Tripwire.Operation.{FileOperationEvent, WriteBurstTracker}
use kavach_npu.Tripwire.Window.{
  burst_tracker_with, is_recent, purge_expired, record_file_event, make_write_event,
  ingest_operation,
}

-- The arguments of one `ingest_operation`.
pub record FileOperation : Type 0 where
  pub pid : ℕ
  pub path : List ℕ
  pub contents : List ℕ
  pub is_rename : Bool
  pub now_ms : ℕ

-- The clock does not go back.
abbrev pub InOrder : ℕ → List FileOperation → Type 0
InOrder from [] = Unit {0}
InOrder from (o ∷ os) = (from ≤ o.now_ms) × InOrder o.now_ms os

abbrev pub last_time : ℕ → List FileOperation → ℕ
last_time from [] = from
last_time from (o ∷ os) = last_time o.now_ms os

abbrev pub event_of : (d : Float) → FileOperation → FileOperationEvent d
event_of d o = make_write_event d o.pid o.now_ms o.path o.contents o.is_rename

module _ (fl : Floats) (sha256 : List ℕ → List ℕ) where
  open fl use {double}

  abbrev pub ingest : WriteBurstTracker double → FileOperation → WriteBurstTracker double
  ingest t o = (ingest_operation fl sha256 t o.pid o.path o.contents o.is_rename o.now_ms).0

  unfoldable pub ingest_all :
      WriteBurstTracker double → List FileOperation → WriteBurstTracker double
  ingest_all t [] = t
  ingest_all t (o ∷ os) = ingest_all (ingest t o) os

-- The events of a history no older than the window.
abbrev pub recent : (d : Float) → ℕ → ℕ → List FileOperation → List (FileOperationEvent d)
recent d window now os = filter (is_recent d (now - window)) (map (event_of d) os)

module _ (fl : Floats) (sha256 : List ℕ → List ℕ) (window threshold : ℕ) where
  open fl use {double}

  abbrev tracker_of : List (FileOperationEvent double) → WriteBurstTracker double
  tracker_of es = record {
    window_duration_ms = window;
    suspension_file_threshold = threshold;
    events = es;
  }

  map-snoc :
      (os : List FileOperation) (o : FileOperation)
      → map (event_of double) (os ++ (o ∷ []))
        ≡ map (event_of double) os ++ (event_of double o ∷ [])
  map-snoc [] o = refl
  map-snoc (x ∷ os) o = ap (◌∷◌ (event_of double x)) (map-snoc os o)

  -- One more operation, not before the last.
  pub ingest-recent :
      (now : ℕ) (os : List FileOperation) (o : FileOperation)
      → now ≤ o.now_ms
      → ingest fl sha256 (tracker_of (recent double window now os)) o
        ≡ tracker_of (recent double window o.now_ms (os ++ (o ∷ [])))
  unfolding ingest_operation record_file_event purge_expired
  ingest-recent now os o later =
      let keep = is_recent double (o.now_ms - window) in
      let all = map (event_of double) os in
      ap tracker_of (
        filter-append keep (recent double window now os) (event_of double o ∷ [])
        ∙ ap (λ es. es ++ filter keep (event_of double o ∷ []))
            (filter-filter keep (is_recent double (now - window)) all (λ e h. ground arith))
        ∙ sym (filter-append keep all (event_of double o ∷ []))
        ∙ ap (filter keep) (sym (map-snoc os o)))

  ingest_all-from :
      (now : ℕ) (before os : List FileOperation)
      → InOrder now os
      → ingest_all fl sha256 (tracker_of (recent double window now before)) os
        ≡ tracker_of (recent double window (last_time now os) (before ++ os))
  unfolding ingest_all
  ingest_all-from now before [] h =
      ap (λ b. tracker_of (recent double window now b)) (sym (append-nil before))
  ingest_all-from now before (o ∷ os) (later, h) =
      ap (λ t. ingest_all fl sha256 t os) (ingest-recent now before o later)
      ∙ ingest_all-from o.now_ms (before ++ (o ∷ [])) os h
      ∙ ap (λ b. tracker_of (recent double window (last_time o.now_ms os) b))
          (append_assoc before (o ∷ []) os)

  -- While the clock does not go back, the tracker holds exactly the operations of the whole history
  -- that are no older than the window, in their order.
  pub ingest_all-recent :
      (os : List FileOperation)
      → InOrder 0 os
      → ingest_all fl sha256 (burst_tracker_with double window threshold) os
        ≡ tracker_of (recent double window (last_time 0 os) os)
  unfolding burst_tracker_with
  ingest_all-recent os h = ingest_all-from 0 [] os h
