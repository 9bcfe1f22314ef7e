-- ===== src/Signal.antt =====
-- internal/signal: the signaling server and its rate limiter.
pub mod RateLimit
pub mod State
pub mod Handlers
pub mod Rooms
pub mod Keeps
pub mod Route
pub mod Invariant
pub mod Registration
pub mod Relay
pub mod Access
pub mod Gate
mod Tests
pub mod Leaving
