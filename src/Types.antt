-- ===== src/Types.antt =====
-- The shared types of include/nk.h: container states, execution modes, the container context and the
-- command-line options.
use vibe_kata.Base.{Bool, Option}
use vibe_kata.Base.Int.{ℤ}
use vibe_kata.Base.Bytes.{CString}

-- `nk_container_state_t`
pub data ContainerState : Type 0 where
  invalid created running stopped paused : ContainerState

-- `nk_execution_mode_t`
pub data ExecutionMode : Type 0 where
  container vm : ExecutionMode

-- `nk_container_t`
pub record Container : Type 0 where
  pub id : Option CString
  pub bundle_path : Option CString
  pub state : ContainerState
  pub mode : ExecutionMode
  pub init_pid : ℤ
  pub state_file : Option CString
  pub control_fd : ℤ

-- `nk_options_t`
pub record Options : Type 0 where
  pub command : CString
  pub container_id : Option CString
  pub bundle_path : CString
  pub pid_file : Option CString
  pub resume_exec : Option CString
  pub mode : ExecutionMode
  pub attach : Bool
  pub detach : Bool
  pub rm : Bool
