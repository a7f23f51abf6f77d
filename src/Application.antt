-- ===== src/Application.antt =====
-- tools/lora_usb/application.py: the application protocol over the radio.
pub mod Codec
pub mod Bodies
pub mod StopCache
pub mod Rtcm
pub mod Synthetic
pub mod Reassembler
