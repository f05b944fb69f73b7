-- ===== src/Store.antt =====
-- The repositories of henk/store that stand alone (Inbox), and what the repositories share: the error
-- taxonomy and the trimming of content (Content).
pub mod Content
pub mod Inbox
pub mod Memory
pub mod Handoffs
