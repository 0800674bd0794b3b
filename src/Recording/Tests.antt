-- ===== src/Recording/Tests.antt =====
-- A recording whose output splits a character over two reads, and the theorems about it.

use nokkud.Base.{
  codes, bytes_beq, lookup, insert, pos, refl, inl, false, List, [], arith, ◌≡◌, ◌∷◌, nat_eq,
  bytes_eq,
}
use nokkud.Recording.Recorder.Utf8.{incomplete_tail}
use nokkud.Recording.Recorder.{
  Call, Recorder, output, input, close_locked, emit, emit_exit, emit_tail, event, new_recorder,
  perform, perform_all, record_data, record_exit, record_input, record_output,
}
use nokkud.Recording.Recorder.Exact.{given}
use nokkud.Recording.Recorder.Decoded.{decoded_exactly, decoded}
use nokkud.Recording.Recorder.Boundary.{IsUtf8, one, two, none_left}

-- An "é", split over two reads, an input in between, and a read that finds the file full.
abbrev calls : List Call
calls =
    output 10 (b'a' ∷ 195 ∷ [])
    ∷ input 20 (b'x' ∷ [])
    ∷ output 30 (169 ∷ b'b' ∷ [])
    ∷ output 1000 (b'c' ∷ [])
    ∷ output 10 (b'd' ∷ [])
    ∷ []

abbrev recorded : Recorder
recorded = perform_all calls (new_recorder 1000 false)

pieces :
    recorded.cast
    ≡ record { kind = codes "o"; text = b'a' ∷ [] }
      ∷ record { kind = codes "i"; text = b'x' ∷ [] }
      ∷ record { kind = codes "o"; text = 195 ∷ 169 ∷ b'b' ∷ [] }
      ∷ []
unfolding perform_all perform record_output record_input event record_data emit close_locked
    emit_tail emit_exit new_recorder incomplete_tail lookup insert codes bytes_beq
pieces = refl

-- The output up to the full file is valid.
output-IsUtf8 : IsUtf8 (given (new_recorder 1000 false).max_size (codes "o") calls)
unfolding new_recorder codes bytes_beq
output-IsUtf8 = one b'a' (195 ∷ 169 ∷ b'b' ∷ []) refl (omega arith) (
    two 195 169 (b'b' ∷ []) refl (omega arith, omega arith) (omega arith, omega arith)
      (one b'b' [] refl (omega arith) (none_left refl)))

-- An encoder that keeps every text.
decoded_exactly_example :
    decoded (λ s. s) (codes "o") (close_locked recorded).cast ≡ b'a' ∷ 195 ∷ 169 ∷ b'b' ∷ []
unfolding new_recorder codes bytes_beq
decoded_exactly_example =
    decoded_exactly (λ s. s) 1000 false (codes "o") calls (λ s v. refl) (inl refl) output-IsUtf8

abbrev told : Recorder
told = record_exit (pos 7) (record_output 5 (b'a' ∷ 195 ∷ []) (new_recorder 1000 false))
