-- ===== src/Oci.antt =====
-- src/oci/spec.c and include/nk_oci.h: the OCI runtime specification of a bundle. `Types` has the
-- structs, `Parse` the parsers of the parts of `config.json`, `Load` and `Annotation` the functions that
-- other files call, and `Free` what is freed. Memory is assumed never to run out.
mod Types
mod Parse
mod Load
mod Annotation
mod Free
pub mod Arrays
pub mod Valid
pub mod Lookup
pub mod Freed
unfoldable pub use Types.*
unfoldable pub use Parse.*
unfoldable pub use Load.*
unfoldable pub use Annotation.*
unfoldable pub use Free.*
