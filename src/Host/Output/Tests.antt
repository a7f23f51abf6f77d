-- ===== src/Host/Output/Tests.antt =====
-- Concrete runs for the output to TCP clients.
use mowgli_lora_link.Prelude.{ℕ, List, [], ◌∷◌, length, ◌≡◌, refl, if◌then◌else◌, leb}
use mowgli_lora_link.Dict.{insert}
use mowgli_lora_link.Host.Output.{Queued, SendResult, took, init, publish}
use mowgli_lora_link.Host.Output.Bounds.{AllFit, publish-AllFit}

-- Sockets that take two bytes at most.
abbrev two_bytes : ℕ → List ℕ → SendResult
two_bytes client raw = took (if leb 2 (length raw) then 2 else length raw)

publish-AllFit_example : AllFit (publish (4 ∷ []) [] two_bytes (9 ∷ 8 ∷ 7 ∷ []) 100 init).0.clients
publish-AllFit_example = publish-AllFit (4 ∷ []) [] two_bytes (9 ∷ 8 ∷ 7 ∷ []) 100 init tt

abbrev first : Queued
first = record { raw = 9 ∷ 8 ∷ 7 ∷ []; enqueued_at = 100; offset = 0 }

-- The client receives two bytes of the frame.
sends_two :
    (publish (4 ∷ []) [] two_bytes (9 ∷ 8 ∷ 7 ∷ []) 100 init).0.clients
    ≡ (4, record { raw = 9 ∷ 8 ∷ 7 ∷ []; enqueued_at = 100; offset = 2 } ∷ []) ∷ []
unfolding publish insert
sends_two = refl
