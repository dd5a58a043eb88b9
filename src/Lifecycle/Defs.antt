-- ===== src/Lifecycle/Defs.antt =====
-- `nk_container_create`, `nk_container_state` and what they share with the other commands (src/main.c).
use vibe_kata.Base.{Bool, false, none, some, if◌then◌else◌}
use vibe_kata.Base.Int.{ℤ, pos, negsuc}
use vibe_kata.Base.Bytes.{CString}
use vibe_kata.Effects.{M, ◌>>◌}
use vibe_kata.Files.{Files, directory}
use vibe_kata.Jansson.{Jansson}
use vibe_kata.Types.{ContainerState, invalid, created, running, stopped, Container, Options}
use vibe_kata.State.{Env, mkdir_p}
use vibe_kata.Lifecycle.StateDir.{choose_state_dir}
use vibe_kata.State
use vibe_kata.Oci.{spec_load, spec_validate}

module _ {W T : Type 0} (fs : Files W T) (env : Env) where
  -- `ensure_state_dir`
  unfoldable pub ensure_state_dir : M W (Unit {0})
  unfolding choose_state_dir
  ensure_state_dir w = elim (fs.stat (choose_state_dir env).0 w) [
    | some directory ↦ (some tt, w)
    | some _ ↦ (none, w)
    | none ↦ mkdir_p fs (choose_state_dir env).0 0o755 w
  ]

-- The container is stored as running, and once its process is gone as stopped.
abbrev pub as_running : Container → ℤ → Container
as_running c init_pid = record c { state = running; init_pid = init_pid }

abbrev pub as_stopped : Container → Container
as_stopped c = record c { state = stopped; init_pid = pos 0 }

-- The container that `nk_container_create` stores.
unfoldable pub new_container : Options → CString → Container
new_container opts container_id = record {
  id = some container_id;
  bundle_path = some opts.bundle_path;
  state = created;
  mode = opts.mode;
  init_pid = pos 0;
  state_file = none;
  control_fd = negsuc 0;
}

module _ {W J T : Type 0} (fs : Files W T) (js : Jansson J T) (env : Env) where
  -- A bundle whose specification loads and is valid.
  unfoldable pub has_valid_spec : CString → W → Bool
  has_valid_spec bundle_path w = elim (spec_load fs js (some bundle_path) w) [
    | none ↦ false
    | some spec ↦ spec_validate spec
  ]

  unfoldable pub create_new : Options → CString → M W (Unit {0})
  create_new opts container_id w =
      if State.exists fs env container_id w
      then (none, w)
      else if has_valid_spec opts.bundle_path w
      then State.save fs js env (new_container opts container_id) w
      else (none, w)

  -- `nk_container_create`, for the container id of the options, which is not NULL
  unfoldable pub create : Options → CString → M W (Unit {0})
  create opts container_id = do ensure_state_dir fs env; create_new opts container_id

  -- `nk_container_state`
  unfoldable pub container_state : CString → W → ContainerState
  container_state container_id w = elim (State.load fs js env container_id w) [
    | none ↦ invalid
    | some c ↦ c.state
  ]
