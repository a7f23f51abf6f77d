-- ===== src/Host/Parser/Tests.antt =====
-- Concrete runs for the RTCM stream parser.
use mowgli_lora_link.Prelude.{ℕ, List, [], ◌∷◌, ◌≡◌, refl, ok}
use mowgli_lora_link.Crc.{crc24q}
use mowgli_lora_link.Dict.{lookup, insert}
use mowgli_lora_link.Application.Rtcm.{valid_rtcm3}
use mowgli_lora_link.Host.Parser.{Parser, init, feed}
use mowgli_lora_link.Host.Parser.Accounting.{Accounted, Fed, feed-Fed}

-- A byte of garbage, a header that fails, and a frame of type 1005.
abbrev noisy : List ℕ
noisy = 7 ∷ 0xD3 ∷ 255 ∷ 0xD3 ∷ 0 ∷ 2 ∷ 0x3E ∷ 0xD0 ∷ 164 ∷ 224 ∷ 0 ∷ []

abbrev parsed : Parser
parsed = record {
  buffer = [];
  stats = record {
    input_bytes = 11;
    garbage_bytes = 2;
    header_failures = 1;
    length_failures = 0;
    crc_failures = 0;
    frames = 1;
    frame_bytes = 8;
    stream_resets = 0;
  };
  message_types = (1005, 1) ∷ [];
}

resynchronises :
    feed init noisy 5
    ≡ ok (
      parsed,
      record {
        raw = 0xD3 ∷ 0 ∷ 2 ∷ 0x3E ∷ 0xD0 ∷ 164 ∷ 224 ∷ 0 ∷ [];
        message_type = 1005;
        received_at = 5;
      }
          ∷ [],
    )
unfolding feed init valid_rtcm3 crc24q lookup insert
resynchronises = refl

init-Accounted : Accounted init
unfolding init
init-Accounted = record { balance = refl }

feed-Fed_example : Fed 5 init noisy (feed init noisy 5)
feed-Fed_example = feed-Fed init noisy 5 init-Accounted
