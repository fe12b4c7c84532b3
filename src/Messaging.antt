-- ===== src/Messaging.antt =====
-- The inbound queue (cmd/internal/events/inbound-message.go and cmd/internal/infra/messaging).
mod Inbound
mod Handler
pub use Inbound.*
unfoldable pub use Inbound.{validate_requested, parse_inbound}
pub use Handler.*
unfoldable pub use Handler.{handle, retry_delay, disposal}
pub mod Parsed
pub mod Safety
pub mod Retries
