-- ===== src/State.antt =====
-- src/common/state.c: the container states on disk, one `state.json` in a directory for each container.
-- `save`, `load`, `delete` and `exists` are `nk_state_save` and so on, with the library's interfaces to
-- the file system and to jansson as parameters. What the code prints is left out.
mod Names
mod Dir
mod Store
pub mod Paths
pub mod Saved
pub mod RoundTrip
pub mod Frame
pub mod Loaded
pub mod Map
unfoldable pub use Names.*
unfoldable pub use Dir.*
unfoldable pub use Store.*
