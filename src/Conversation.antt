-- ===== src/Conversation.antt =====
-- conversation-file/conversation.go: the conversation over the session store, a policy and a prompt.
pub mod Default
pub mod History
pub mod Cleared
mod Examples
