-- ===== src/K/Tests.antt =====
-- The theorem about the strings of kernel/libk.cc at a string.
