-- ===== src/Guest/Audit/Laws.antt =====
-- That the host reads what the guest sends, and that records are numbered one after the other.
use kavach_npu.Prelude.{
  ℕ, ◌+◌, ◌%◌, ◌^◌, ◌≤◌, ◌<◌, ◌≡◌, refl, sym, subst, Bool-cases, inl, inr, true, false, List, [],
  ◌∷◌, Result, ok, err, length, All, arith,
}
use kavach_npu.Prelude.Bytes.{IsByte, IsBytes}
use kavach_npu.Wsl.Records.{GuestWriteRecord, IsGuestWriteRecord}
use kavach_npu.Wsl.Path.{is_normalized_mnt_path}
use kavach_npu.Wsl.Utf8.{is_utf8}
use kavach_npu.Wsl.Wire.{to_frame, from_frame}
use kavach_npu.Wsl.Wire.RoundTrip.{IsAcceptable, from_frame-to_frame}
use kavach_npu.Guest.Audit.{GuestAuditSource, Operation, record_of, record_operation, cgroup_path}

-- The ranges that the types of the arguments give.
pub record IsOperation (o : Operation) : Type 0 where
  pub pid_fits : o.pid < 256 ^ 4
  pub path_fits : All IsByte o.normalized_path
  pub path_utf8 : is_utf8 o.normalized_path ≡ true
  pub start_fits : o.byte_range_start < 256 ^ 8
  pub length_fits : o.byte_range_length < 256 ^ 8

-- A counter that has not wrapped, and an identifier of 16 bytes.
pub record IsSource (s : GuestAuditSource) : Type 0 where
  pub id_fits : IsBytes 16 s.distribution_id
  pub positive : 0 < s.sequence_counter
  pub counter_fits : s.sequence_counter < 256 ^ 8

module _ (sha256 : List ℕ → List ℕ) where
  -- An operation on a normalized path of 1 to 4096 bytes is recorded and framed, and the host reads
  -- the frame as that very record; this for a hash of 32 bytes and a counter that has not wrapped.
  pub record_operation-frame :
      ((xs : List ℕ) → IsBytes 32 (sha256 xs))
      → (s : GuestAuditSource) (o : Operation) → IsSource s
      → IsOperation o
      → is_normalized_mnt_path o.normalized_path ≡ true
      → 0 < length o.normalized_path
      → length o.normalized_path ≤ 4096
      → (r : GuestWriteRecord) × (frame : List ℕ) × ((record_operation sha256 s o).1 ≡ ok r)
        × (to_frame r ≡ ok frame)
        × (from_frame frame ≡ ok r)
  unfolding record_operation
  record_operation-frame hash s o src op normalized some_path short =
      let r = record_of sha256 s o in
      let (frame, sent, read) =
        from_frame-to_frame r (fits hash s o src op)
          (acceptable s o src op normalized some_path short) in
      (r, frame, rw (record_operation, normalized) refl, sent, read)
    where
      fits :
          ((xs : List ℕ) → IsBytes 32 (sha256 xs))
          → (s : GuestAuditSource) (o : Operation) → IsSource s
          → IsOperation o
          → IsGuestWriteRecord (record_of sha256 s o)
      fits hash s o src op = record {
        major_fits = omega arith;
        minor_fits = omega arith;
        sequence_fits = src.counter_fits;
        monotonic_fits = omega arith;
        realtime_fits = omega arith;
        process_id_fits = op.pid_fits;
        start_ticks_fits = omega arith;
        distribution_id_fits = src.id_fits;
        mount_namespace_fits = omega arith;
        executable_fits = hash o.executable_path;
        cgroup_fits = hash (cgroup_path o.pid);
        path_fits = op.path_fits;
        range_start_fits = op.start_fits;
        range_length_fits = op.length_fits;
        flags_fit = omega arith;
      }

      acceptable :
          (s : GuestAuditSource) (o : Operation)
          → IsSource s
          → IsOperation o
          → is_normalized_mnt_path o.normalized_path ≡ true
          → 0 < length o.normalized_path
          → length o.normalized_path ≤ 4096
          → IsAcceptable (record_of sha256 s o)
      acceptable s o src op normalized some_path short = record {
        version = refl;
        positive = src.positive;
        no_flags = refl;
        some_path = some_path;
        path_length = short;
        path_utf8 = op.path_utf8;
        path_normalized = normalized;
      }

  -- The records that a sequence of operations makes; a refused one makes none.
  abbrev kept : Result (List ℕ) GuestWriteRecord → List GuestWriteRecord → List GuestWriteRecord
  kept (ok r) rest = r ∷ rest
  kept (err e) rest = rest

  unfoldable pub records : GuestAuditSource → List Operation → List GuestWriteRecord
  records s [] = []
  records s (o ∷ os) = let (s', result) = record_operation sha256 s o in kept result (records s' os)

  -- The list's numbers are `n`, `n + 1` and so on.
  abbrev pub NumberedFrom : ℕ → List GuestWriteRecord → Type 0
  NumberedFrom n [] = Unit {0}
  NumberedFrom n (r ∷ rs) = (r.sequence_number ≡ n) × NumberedFrom (n + 1) rs

  abbrev numbered : GuestAuditSource → GuestAuditSource
  numbered s = record s { sequence_counter = (s.sequence_counter + 1) % 2 ^ 64 }

  records_accepted :
      (s : GuestAuditSource) (o : Operation) (os : List Operation)
      → is_normalized_mnt_path o.normalized_path ≡ true
      → records s (o ∷ os) ≡ record_of sha256 s o ∷ records (numbered s) os
  unfolding records record_operation
  records_accepted s o os e = rw (record_operation, e) refl

  records_refused :
      (s : GuestAuditSource) (o : Operation) (os : List Operation)
      → is_normalized_mnt_path o.normalized_path ≡ false
      → records s (o ∷ os) ≡ records s os
  unfolding records record_operation
  records_refused s o os e = rw (record_operation, e) refl

  -- Records are numbered one after the other from the counter on, with no gap for refused
  -- operations, as long as the counter has room.
  pub records-NumberedFrom :
      (s : GuestAuditSource) (os : List Operation)
      → s.sequence_counter + length os < 2 ^ 64
      → NumberedFrom s.sequence_counter (records s os)
  unfolding records
  records-NumberedFrom s [] room = tt
  records-NumberedFrom s (o ∷ os) room =
      elim (Bool-cases (is_normalized_mnt_path o.normalized_path)) [
        | inl e ↦
            let fits : (s.sequence_counter + 1) % 2 ^ 64 ≡ s.sequence_counter + 1 = omega arith in
            subst (NumberedFrom s.sequence_counter) (sym (records_accepted s o os e)) (
              refl,
              subst (λ n. NumberedFrom n (records (numbered s) os)) fits
                  (records-NumberedFrom (numbered s) os (omega arith)),
            )
        | inr e ↦
            subst (NumberedFrom s.sequence_counter) (sym (records_refused s o os e))
              (records-NumberedFrom s os (omega arith))
      ]
