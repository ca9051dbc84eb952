-- ===== src/Canonical.antt =====
-- src/oncemesh/canonical.py: the JSON profile and the canonical encoding (Encode), the checks that
-- the validators share (Checks), and the validators of the interchange objects (Action, Manifest,
-- Records).
pub mod Encode
pub mod Checks
pub mod Action
pub mod Manifest
pub mod Records
