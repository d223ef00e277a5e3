-- ===== src/Hdl.antt =====
-- src/SERVER/zt_hdl.c.
pub mod Send
pub mod Header
pub mod Request
