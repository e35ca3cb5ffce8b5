-- ===== src/Npu/Session.antt =====
-- crates/kavach-core/src/npu.rs: the session over a verified model bundle, and its degraded state.
-- The key's parser gives the libraries under that key; the directories' contents are an argument.
pub mod Heads
use kavach_npu.Prelude.{ℕ, Bool, true, false, List, Result, ok, err}
use kavach_npu.Prelude.Float.{Float}
use kavach_npu.Prelude.Int.{ℤ}
use kavach_npu.Prelude.Text.{codes}
use kavach_npu.Core.Config.{KavachConfig}
use kavach_npu.Core.Manifest.{
  DegradedReason, manifest_signature_invalid, ModelManifest, Libraries, BundleDir,
  verify_bundle_dir,
}
use kavach_npu.Npu.Engine.{
  NpuEngine, Machine, new_npu_engine, run_io_inference, run_net_inference, run_audit_inference,
}
use kavach_npu.Npu.Tensor.{IoInputTensor, NetInputTensor, AuditInputTensor}

pub data NpuError : Type 0 where
  degraded_session : DegradedReason → NpuError
  execution_failed : List ℕ → NpuError

pub data NpuState : Type 0 where
  active : ModelManifest → NpuState
  degraded_observer :
      (reason : DegradedReason) (rollback_minimum : ℕ) (expected_key_id : List ℕ) → NpuState

pub record NpuSession : Type 0 where
  pub state : NpuState
  pub engine : NpuEngine

module _ (machine : Machine) where
  unfoldable pub new_active : ModelManifest → NpuSession
  new_active manifest = record { state = active manifest; engine = new_npu_engine machine }

  unfoldable pub new_degraded : DegradedReason → ℕ → List ℕ → NpuSession
  new_degraded reason rollback_minimum expected_key_id = record {
    state = degraded_observer reason rollback_minimum expected_key_id;
    engine = new_npu_engine machine;
  }

  -- `ed25519_dalek::VerifyingKey::from_bytes`, with what the key is used for; and the bundle's
  -- directories by their path.
  module _ (key_from_bytes : List ℕ → Result (List ℕ) Libraries) (dir_at : List ℕ → BundleDir) where
    abbrev pub expected_key : List ℕ
    expected_key = codes "reference-model-2026-b"

    -- The match on the verification's result.
    abbrev pub session_of : ℕ → Result DegradedReason ModelManifest → NpuSession
    session_of minimum (ok manifest) = new_active manifest
    session_of minimum (err reason) = new_degraded reason minimum expected_key

    abbrev pub session_under : KavachConfig → Result (List ℕ) Libraries → NpuSession
    session_under config (err e) =
        new_degraded (manifest_signature_invalid e) config.model.minimum_rollback_generation
          expected_key
    session_under config (ok lib) = session_of config.model.minimum_rollback_generation (
        verify_bundle_dir lib (dir_at config.model.bundle_directory)
          config.model.minimum_rollback_generation)

    unfoldable pub from_config : KavachConfig → List ℕ → NpuSession
    from_config config verifying_key_bytes =
        session_under config (key_from_bytes verifying_key_bytes)

abbrev pub is_degraded_state : NpuState → Bool
is_degraded_state (active m) = false
is_degraded_state (degraded_observer r g k) = true

unfoldable pub is_degraded : NpuSession → Bool
is_degraded s = is_degraded_state s.state

unfoldable pub total_inferences : NpuSession → ℕ
total_inferences s = s.engine.active_inferences

module _ (f : Float) where
  -- An evaluation: the engine is run in the active state only.
  abbrev pub on_engine : NpuState → NpuSession → NpuEngine × f.F → NpuSession × Result NpuError f.F
  on_engine (degraded_observer reason g k) s scored = (s, err (degraded_session reason))
  on_engine (active m) s scored = (record s { engine = scored.0 }, ok scored.1)

  unfoldable pub evaluate_io_head : NpuSession → IoInputTensor → NpuSession × Result NpuError f.F
  evaluate_io_head s input = on_engine s.state s (run_io_inference f s.engine input.rows)

  unfoldable pub evaluate_net_head : NpuSession → NetInputTensor → NpuSession × Result NpuError f.F
  evaluate_net_head s input = on_engine s.state s (run_net_inference f s.engine input.rows)

  unfoldable pub evaluate_audit_head :
      NpuSession → AuditInputTensor → NpuSession × Result NpuError f.F
  evaluate_audit_head s input = on_engine s.state s (run_audit_inference f s.engine input.rows)
