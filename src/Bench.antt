-- ===== src/Bench.antt =====
-- The mixed bench of tools/lora_usb/mixed_bench.py, whose times are microseconds, and the client of the
-- modem, tools/lora_usb/client.py.
pub mod Scheduler
pub mod Client
pub mod Transport
pub mod Delta
