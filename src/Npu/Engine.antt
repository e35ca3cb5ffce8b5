-- ===== src/Npu/Engine.antt =====
-- crates/kavach-core/src/npu_backend.rs: the probe of the hardware and the scorer, as built without
-- the feature `npu-hardware`, which is off by default. The file system, the device and the driver
-- are arguments; the counter of inferences is a `u64`, which `fetch_add` wraps.
use kavach_npu.Prelude.{
  ℕ, ◌+◌, ◌%◌, ◌^◌, Bool, true, false, ◌&&◌, List, [], ◌∷◌, Option, none, some, if◌then◌else◌,
  get_or,
}
use kavach_npu.Prelude.Float.{Float}
use kavach_npu.Prelude.Int.{ℤ, pos}
use kavach_npu.Prelude.Text.{codes}

pub data ExecutionProviderBackend : Type 0 where
  amd_xdna_npu direct_ml_gpu native_cpu_baseline : ExecutionProviderBackend

pub record NpuHardwareInfo : Type 0 where
  pub device_detected : Bool
  pub driver_version : Option (List ℕ)
  pub runtime_bin_dir : Option (List ℕ)
  pub xclbin_path : Option (List ℕ)
  pub selected_backend : ExecutionProviderBackend

-- What the probe asks of the system.
pub record Machine : Type 0 where
  pub join : List ℕ → List ℕ → List ℕ
  pub is_file : List ℕ → Bool
  pub canonicalize : List ℕ → Option (List ℕ)
  -- The variable RYZEN_AI_INSTALLATION_PATH.
  pub sdk_path : Option (List ℕ)
  pub has_device : Bool
  pub driver : Option (List ℕ)

abbrev pub ResolvedPaths : Type 0
ResolvedPaths = Option (List ℕ) × Option (List ℕ)

module _ (m : Machine) where
  open m use {join, is_file, canonicalize}

  -- `canonicalize().unwrap_or(path)`
  abbrev pub canonical_or : List ℕ → List ℕ
  canonical_or path = elim (canonicalize path) [ none ↦ path | some p ↦ p ]

  abbrev pub both_exist : List ℕ → List ℕ → Bool
  both_exist bin xclbin = is_file (join bin (codes "onnxruntime.dll")) && is_file xclbin

  -- Step 2: the installation that the environment names.
  unfoldable pub sdk_paths : Option (List ℕ) → ResolvedPaths
  sdk_paths none = (none, none)
  sdk_paths (some sdk) =
      let bin = join sdk (codes "bin") in
      let xclbin = join sdk (codes "voe-4.0-win_amd64/xclbins/phoenix/1x4.xclbin") in
      if both_exist bin xclbin then (some bin, some xclbin) else (none, none)

  -- Step 1: the first base directory that has both files.
  unfoldable pub candidate_paths : List (List ℕ) → ResolvedPaths
  candidate_paths [] = sdk_paths m.sdk_path
  candidate_paths (base ∷ bases) =
      let bin = join base (codes "ryzen_ai_deployment/runtimes/win-x64/native") in
      let xclbin = join base (codes "NPU_RAI_376_WHQL/npu_mcdm_stack_prod/1x4.xclbin") in
      if both_exist bin xclbin
      then (some (canonical_or bin), some (canonical_or xclbin))
      else candidate_paths bases

  unfoldable pub resolve_npu_paths : ResolvedPaths
  resolve_npu_paths =
      candidate_paths
        (codes "npu_runtime" ∷ codes "../npu_runtime" ∷ codes "../../npu_runtime" ∷ [])

  abbrev pub is_some : Option (List ℕ) → Bool
  is_some none = false
  is_some (some p) = true

  unfoldable pub probe : NpuHardwareInfo
  probe =
      let paths = resolve_npu_paths in
      let has_runtime = is_some paths.0 && is_some paths.1 in
      record {
        device_detected = m.has_device;
        driver_version = m.driver;
        runtime_bin_dir = paths.0;
        xclbin_path = paths.1;
        selected_backend =
            if m.has_device && has_runtime
            then amd_xdna_npu
            else if has_runtime
            then direct_ml_gpu
            else native_cpu_baseline;
      }

pub record NpuEngine : Type 0 where
  pub info : NpuHardwareInfo
  pub active_inferences : ℕ

unfoldable pub new_npu_engine : Machine → NpuEngine
new_npu_engine m = record { info = probe m; active_inferences = 0 }

-- `fetch_add(1)`
abbrev pub counted_one : NpuEngine → NpuEngine
counted_one e = record e { active_inferences = (e.active_inferences + 1) % 2 ^ 64 }

module _ (s : Float) where
  open s use {F, lit, of_int, add, mul, div, clamp}

  -- `(row[i] as f32) / 127.0`
  abbrev pub feature : ℕ → List ℤ → F
  feature i row = div (of_int (get_or row i (pos 0))) (lit 1270 1)

  unfoldable pub io_score_from : F → List (List ℤ) → F
  io_score_from score [] = score
  io_score_from score (row ∷ rows) =
      io_score_from
        (add score (add (mul (feature 0 row) (lit 7 1)) (mul (feature 3 row) (lit 3 1)))) rows

  unfoldable pub first_feature_sum : F → List (List ℤ) → F
  first_feature_sum total [] = total
  first_feature_sum total (row ∷ rows) = first_feature_sum (add total (feature 0 row)) rows

  unfoldable pub run_io_inference : NpuEngine → List (List ℤ) → NpuEngine × F
  run_io_inference e rows =
      (counted_one e, clamp (div (io_score_from (lit 0 1) rows) (lit 100 1)) (lit 0 1) (lit 10 1))

  unfoldable pub run_net_inference : NpuEngine → List (List ℤ) → NpuEngine × F
  run_net_inference e rows = (
    counted_one e,
    clamp (div (first_feature_sum (lit 0 1) rows) (lit 320 1)) (lit 0 1) (lit 10 1),
  )

  unfoldable pub run_audit_inference : NpuEngine → List (List ℤ) → NpuEngine × F
  run_audit_inference e rows = (
    counted_one e,
    clamp (div (first_feature_sum (lit 0 1) rows) (lit 160 1)) (lit 0 1) (lit 10 1),
  )
