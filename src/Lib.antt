-- ===== src/Lib.antt =====
-- Kavach is an on-device ransomware and beacon detector: sensors observe the system, detectors
-- raise verdicts, and a privileged broker enforces them. This library models the parts that
-- decide what is enforced and on what evidence.
--
-- Consumers of system events feed the Tripwire, which measures the entropy of written blocks
-- in a window of 50 ms, the beacon engine, which keeps the last 32 packets of each flow, and
-- the event tracker. In its live loop the daemon turns their feature matrices into quantized
-- tensors, has the session over the signed model bundle score them, and dispatches a verdict
-- on an anomaly. The Windows service runs that loop on a worker thread.
--
-- A detector's verdict travels over a named pipe as 139 bytes. The pipe server decodes a frame
-- and, if it is a verdict, hands it to the broker, which checks it against its policy and its
-- replay cache. A guest agent inside WSL sends framed records of file writes, which the host
-- matches with its own file events on a synchronized clock. A configuration, an allowlist and
-- a signed model bundle say what the policy is.
--
--   Prelude            shared types; tests on numbers, lists, bytes, dictionaries, integers
--   Core.Contracts     crates/kavach-core/src/lib.rs: Verdict, EnforcementAction, DispatchError
--   Core.Wire          crates/kavach-core/src/wire.rs: to_wire, from_wire, from_slice
--   Core.Config        crates/kavach-core/src/config.rs: validate, load_or_safe_defaults
--   Core.Allowlist     crates/kavach-core/src/allowlist.rs: parse_and_verify, matches, is_exempt
--   Core.Base64        crates/kavach-core/src/manifest.rs: encode_base64, decode_base64
--   Core.Manifest      crates/kavach-core/src/manifest.rs: verify_manifest_and_onnx and its caller
--   Tripwire.Entropy   crates/kavach-tripwire/src/entropy.rs: shannon_entropy, differential_entropy
--   Tripwire.Operation crates/kavach-tripwire/src/sliding_window.rs: the types
--   Tripwire.Window    crates/kavach-tripwire/src/sliding_window.rs: evaluate_pid; lib.rs: the engine
--   Beacon.Flow        crates/kavach-beacon/src/flow.rs: RollingFlow, its window and its matrix
--   Beacon.Detector    crates/kavach-beacon/src/detector.rs: evaluate_beacon_rhythm
--   Beacon.Engine      crates/kavach-beacon/src/lib.rs: TcnEngine, ingest_packet
--   Npu.Proto, Npu.Onnx crates/kavach-core/src/npu_backend.rs: ProtoWriter, generate_reference_onnx
--   Npu.Engine         crates/kavach-core/src/npu_backend.rs: probe, NpuEngine
--   Npu.Tensor         crates/kavach-core/src/tensor.rs: quantization, tensors and their bytes
--   Npu.Session        crates/kavach-core/src/npu.rs: NpuSession, from_config, the three heads
--   Events.Tracker     crates/kavach-events/src/events.rs: record_event, correlate_recent
--   Events.Features    crates/kavach-events/src/events.rs: build_tensor_matrix
--   Firewall.Rule      crates/kavach-firewall/src/rule.rs: WfpRuleRegistry and its operations
--   Firewall.Broker    crates/kavach-firewall/src/broker.rs: EnforcementBroker and its gates
--   Sensors.PipeBroker crates/kavach-sensors/src/pipe_broker.rs: handle_frame, the answer byte
--   Sensors.WfpDriver  crates/kavach-sensors/src/wfp_driver.rs: filters added, removed and swept
--   Sensors.Etw        crates/kavach-sensors/src/etw_*.rs: what a consumer does with an event
--   Wsl.Records        crates/kavach-wsl/src/lib.rs: GuestWriteRecord
--   Wsl.Path, Wsl.Wire crates/kavach-wsl/src/wire.rs: is_normalized_mnt_path, to_frame, from_frame
--   Wsl.Utf8           the standard library's check of UTF-8, as the encoding defines it
--   Wsl.ClockSync      crates/kavach-wsl/src/clock_sync.rs: process_response, get_valid_estimate
--   Wsl.Correlator     crates/kavach-wsl/src/correlator.rs: correlate_guest_record and the paths
--   Guest.Audit        crates/kavach-wsl-guest/src/audit_source.rs and clock_sync.rs
--   Guest.Vsock        crates/kavach-wsl-guest/src/vsock.rs: compute_backoff_ms
--   Service.Live       src/main.rs: run_live_sentinel_daemon_ext, its loop and its verdicts
--   Service.Lifecycle  src/service.rs: service_main and service_control_handler as steps
--   Pack.Onnx          tools/kavach-pack/src/onnx_builder.rs: generate_kavach_stub_onnx
--   Pack.Sign          tools/kavach-pack/src/main.rs: keys, signatures, the bundle that is written
--   Tests              the theorems at concrete inputs
--
-- Functions keep the names of the source. A method that changes its object takes the state and
-- returns the new one beside its result. Machine integers are natural numbers: a record's Is-
-- predicate states the ranges of its fields, and where the source adds without a check the sum
-- is taken modulo the word, as a release build does. Strings are lists of bytes; arrays of
-- bytes are lists whose length a predicate states; a HashMap is an association list with
-- distinct keys. Loops are structural recursion where they can be. Fuel is used for the ten
-- digits of a printed u32; for the groups of a varint, of which ten hold 64 bits; for the
-- chunks of a list, of which there are at most as many as elements; and for the live loop,
-- whose number of steps a theorem gives. Floating-point numbers are an argument: a record of
-- the type and of the operations that the source uses, with no law assumed but where a theorem
-- names it, so that what is proved holds of IEEE numbers and of any others; a literal is its
-- digits and the place of its point. Libraries that the source calls (JSON, TOML, hex,
-- SHA-256, Ed25519), files, devices and clocks are arguments.
--
-- The service is a step relation: its main function, the control handler, which the service
-- manager may call at any time once it is registered, and the worker's end. The loop that
-- polls the running flag is a step that may be taken any number of times. A panic of the
-- worker is no step.
--
-- Not modelled: the calls of ONNX Runtime under the feature npu-hardware, which is off by
-- default; the PowerShell queries of device and driver; the named pipe itself and the delivery
-- of ETW events; the suspension of processes; key generation and embedded keys; the command
-- line, the printed reports and demonstration runs; the sc.exe commands of the service
-- manager; the threat injector, the benches and the training crate. These are input and
-- output, or call code outside the repository.
pub mod Prelude
pub mod Beacon
pub mod Core
pub mod Events
pub mod Firewall
pub mod Guest
pub mod Npu
pub mod Pack
pub mod Sensors
pub mod Service
pub mod Tripwire
pub mod Wsl
pub mod Tests
