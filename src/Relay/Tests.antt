-- ===== src/Relay/Tests.antt =====
-- The relay driver's theorems on a chip of registers whose pins are inputs, one relay commanded.
