-- ===== src/Contracts/Examples.antt =====
-- The theorems about the contracts at a concrete event.
