-- ===== src/Scripts.antt =====
-- The scripts test_voltage.py and test_current.py, which are the same and read one register pair, and
-- test_current_scan.py and test_abb_current_scan.py, which sweep a block of registers.
pub mod Decode
pub mod Runs
pub mod Agreement
