-- ===== src/Pipe.antt =====
-- core/pipe_impl.h and core/pipe_impl.cc: the pipe's message operations.
pub mod Types
pub mod Actions
pub mod Advance
pub mod Handlers
pub mod Reply
pub mod Selection
pub mod Handshake
