-- ===== src/Tools.antt =====
-- internal/tools: the tools that an agent may call.
pub mod Registry
pub mod Shell
