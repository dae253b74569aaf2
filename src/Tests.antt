-- ===== src/Tests.antt =====
-- Runs of the definitions at concrete inputs, and the theorems applied to them.
mod Taxi
mod Phone
mod Messages
mod Frames
mod Lists
mod Calculator
mod Datagrams
mod Server
mod Cli
