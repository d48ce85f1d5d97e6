-- ===== src/Tests.antt =====
-- The theorems at concrete inputs.
mod Toy
mod Stored
mod Kept
mod Signing
mod Watching
mod Serving
mod Paging
mod Setting
mod Starting
mod Asking
mod Piping
mod Turns
mod Routing
mod Whole
mod Logging
