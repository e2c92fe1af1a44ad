-- ===== src/Examples/Modes.antt =====
-- The theorems of Control.Packages.Modes at concrete arguments.
