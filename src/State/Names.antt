-- ===== src/State/Names.antt =====
-- The spelling of states and modes in `state.json` (src/common/state.c).
use vibe_kata.Base.{if◌then◌else◌}
use vibe_kata.Base.Bytes.{CString, bytes, str_eq}
use vibe_kata.Types.{
  ContainerState, invalid, created, running, stopped, paused, ExecutionMode, container, vm,
}

unfoldable pub state_to_string : ContainerState → CString
state_to_string created = bytes "created"
state_to_string running = bytes "running"
state_to_string stopped = bytes "stopped"
state_to_string paused = bytes "paused"
state_to_string invalid = bytes "unknown"

unfoldable pub string_to_state : CString → ContainerState
string_to_state str =
    if str_eq str (bytes "created")
    then created
    else if str_eq str (bytes "running")
    then running
    else if str_eq str (bytes "stopped")
    then stopped
    else if str_eq str (bytes "paused")
    then paused
    else created

unfoldable pub mode_to_string : ExecutionMode → CString
mode_to_string vm = bytes "vm"
mode_to_string container = bytes "container"

unfoldable pub string_to_mode : CString → ExecutionMode
string_to_mode str = if str_eq str (bytes "vm") then vm else container
