-- ===== src/Store/Canonical.antt =====
-- What a store of canonical blocks promises, and that `validateCanonicalBundles` establishes it.
pub mod Bundle
pub mod Rounds
pub mod Chain
