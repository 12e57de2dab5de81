-- ===== src/Examples.antt =====
-- The theorems at concrete inputs, and runs of the definitions on inputs that can be followed in the
-- source and its tests.
mod Inputs
mod Decoding
mod Buffering
mod Devices
mod Alarming
mod Service
mod Tools
mod Threads
mod Loops
