-- ===== src/Examples/Streams.antt =====
-- The theorems of Control.Packages.Streams at concrete arguments.
