-- ===== src/LogStream/Examples.antt =====
-- Two streams with a rune of three bytes cut in half, and a buffer of two bytes.
use webhook_ui.Common.{refl, List, [], ◌∷◌, Bytes}
use webhook_ui.Store.{Stream}
use webhook_ui.LogStream.{TailBuffer, new_stream_capture}
use webhook_ui.LogStream.Capture.{IsConserved, write_all, write_all-IsConserved}

abbrev small : TailBuffer
small = record { limit = 2; buf = 0x61 ∷ [] }

-- A stand-in for `ToValidUTF8`, right on valid text.
abbrev as_is : Bytes → Bytes
as_is text = text

abbrev reads : List (Stream × Bytes)
reads =
    (Stream.stdout, 0x61 ∷ 0xE4 ∷ 0xBD ∷ [])
    ∷ (Stream.stderr, 0x62 ∷ [])
    ∷ (Stream.stdout, 0xA0 ∷ 0x63 ∷ [])
    ∷ []

write_all-IsConserved_example :
    IsConserved as_is reads
      (new_stream_capture 100)
      (write_all as_is reads (new_stream_capture 100))
write_all-IsConserved_example = write_all-IsConserved as_is reads (new_stream_capture 100) refl
