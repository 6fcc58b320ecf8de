-- ===== src/OpenAi.antt =====
-- providers/openai/provider.go: the provider that speaks the chat-completions protocol.
pub mod Response
pub mod Stream
pub mod OneShot
pub mod Same
pub mod Setup
pub mod Format
pub mod Chat
pub mod Body
pub mod Escaping
pub mod BodyText
pub mod Whole
pub mod Deployed
pub mod Fallback
mod Examples
