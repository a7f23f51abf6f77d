-- ===== src/Protocol.antt =====
-- tools/lora_usb/protocol.py: the USB framing and the payloads of the modem.
pub mod Cobs
pub mod Frame
pub mod Radio
pub mod MockApp
pub mod Payloads
pub mod Stream
mod Tests
