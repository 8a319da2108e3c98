-- ===== src/Tests.antt =====
-- Runs at concrete inputs, one for each theorem with hypotheses.
mod Gic
mod Uart
mod Files
mod Memory
mod Machines
mod Firmware
mod Tables
mod Disk
