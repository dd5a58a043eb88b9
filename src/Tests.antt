-- ===== src/Tests.antt =====
-- The concrete inputs of the program's parts, and the theorems at these inputs.
mod World
mod Stored
mod Spec
mod Fixtures
mod Started
mod Ended
mod Child
mod Others
mod History
mod Calls
mod Composed
mod Again
mod Returns
mod Books
mod Machine
mod Messages
mod Options
