-- ===== src/Resource/Refine.antt =====
-- The operations of server/dia/resource.c against the abstract view: for each id, the nodes that it
-- has, the last added first.
pub mod Add
pub mod Free
pub mod FreeType
pub mod Value
