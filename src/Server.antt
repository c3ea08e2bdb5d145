-- ===== src/Server.antt =====
-- internal/server: the webhook intake, the commands of a comment, and who may ask for an apply.
pub mod Commands
pub mod Failures
pub mod Webhook
pub mod Comments
pub mod Intake
pub mod Signature
pub mod Grounds
pub mod Safety
pub mod Parsed
pub mod Leaves
pub mod Auth
pub mod Api
pub mod Scope
pub mod Credentials
