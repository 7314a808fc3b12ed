-- ===== src/Tests.antt =====
-- Runs of the code's models on concrete inputs, and the theorems at them.
pub mod Routing
pub mod Polling
pub mod Settings
pub mod Transcripts
pub mod Replying
pub mod Choosing
pub mod Connecting
pub mod Profiles
pub mod Loading
pub mod Running
pub mod Serving
pub mod Onboarding
