-- ===== src/Lifecycle.antt =====
-- src/main.c: the commands on containers. Each command is a function with effects on a world `W`, over
-- the interfaces to the file system, to jansson and to the kernel. What the code prints is left out,
-- but for the answer of `state`.
mod Defs
mod Context
mod Start
mod Running
mod Main
pub mod Created
pub mod Release
pub mod Typed
pub mod Returns
pub mod Exits
pub mod Checked
pub mod Started
pub mod Ended
pub mod Asked
pub mod Frame
pub mod Others
pub mod Change
pub mod Steps
pub mod Refines
pub mod Cases
pub mod Implements
pub mod Apart
pub mod History
pub mod Composed
pub mod Machine
pub mod Again
pub mod StateDir
pub mod SameDir
pub mod Pid
pub mod Summary
pub mod CommandText
unfoldable pub use Defs.*
unfoldable pub use Context.*
unfoldable pub use Start.*
unfoldable pub use Running.*
unfoldable pub use Main.*
