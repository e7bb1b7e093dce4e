-- ===== src/Wiki.antt =====
-- packages/wiki/src/index.ts: how a compiled material becomes pages, how a changed page is compared with
-- the published one, and how a published wiki is replaced and recovered.
pub mod Diff
pub mod Sections
pub mod Publication
