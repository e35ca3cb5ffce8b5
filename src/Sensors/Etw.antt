-- ===== src/Sensors/Etw.antt =====
-- crates/kavach-sensors/src/etw_kernel_file.rs, etw_tcpip.rs and etw_event_log.rs: each consumer hands
-- its events to an engine behind a lock, which makes the calls come one after the other. A consumer
-- is the state of its engine; nothing sets `is_running`.
use kavach_npu.Prelude.{ℕ, ◌%◌, ◌^◌, Bool, List, Option}
use kavach_npu.Prelude.Float.{Floats}
use kavach_npu.Tripwire.Operation.{WriteBurstTracker, ProcessBurstEvaluation}
use kavach_npu.Tripwire.Window.{ingest_operation}
use kavach_npu.Beacon.Flow.{PacketDirection, FlowKey}
use kavach_npu.Beacon.Detector.{BeaconDetectionResult}
use kavach_npu.Beacon.Engine.{TcnEngine, ingest_packet}
use kavach_npu.Events.Tracker.{
  SecurityEventRecord, EventSequenceTracker, EventAnomalyAlert, record_event,
}

pub record KernelFileEvent : Type 0 where
  pub process_id : ℕ
  pub file_path : List ℕ
  pub is_rename : Bool
  pub payload : List ℕ
  pub timestamp_unix_ms : ℕ

pub record TcpipPacketEvent : Type 0 where
  pub flow_key : FlowKey
  pub payload_bytes : ℕ
  pub direction : PacketDirection
  pub timestamp_ns : ℕ

module _ (fl : Floats) (sha256 : List ℕ → List ℕ) where
  unfoldable pub process_file_event :
      WriteBurstTracker fl.double
      → KernelFileEvent
      → WriteBurstTracker fl.double × Option (ProcessBurstEvaluation fl)
  process_file_event engine e =
      ingest_operation fl sha256 engine e.process_id e.file_path e.payload e.is_rename
        e.timestamp_unix_ms

  -- `payload_bytes as u32` drops the upper bits.
  unfoldable pub process_packet :
      TcnEngine → TcpipPacketEvent → TcnEngine × Option (BeaconDetectionResult fl)
  process_packet engine e = ingest_packet fl sha256 engine e.flow_key (record {
    timestamp_ns = e.timestamp_ns;
    payload_bytes = e.payload_bytes % 2 ^ 32;
    direction = e.direction;
  })

module _ (sha256 : List ℕ → List ℕ) where
  unfoldable pub process_log_event :
      EventSequenceTracker → SecurityEventRecord → EventSequenceTracker × Option EventAnomalyAlert
  process_log_event = record_event sha256
