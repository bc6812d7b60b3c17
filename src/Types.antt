-- ===== src/Types.antt =====
-- internal/ztypes/ztypes.go: the types of package inputs and outputs.
pub mod Cty
pub mod Convert
pub mod Merge
pub mod Typed
pub mod Sound
pub mod Single
pub mod Joined
pub mod Keys
pub mod Parse
pub mod Parsed
mod Texts
mod Tests
