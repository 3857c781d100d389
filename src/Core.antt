-- ===== src/Core.antt =====
-- The class Core (include/kacanopen/core/core.h, src/core/core.cpp): where a received message goes,
-- and how it is started and stopped.
pub mod Routing
pub mod Lifecycle
