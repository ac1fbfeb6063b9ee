-- ===== src/Codec/Tests.antt =====
-- Runs of `encode` and `decode` on small buffers.
use os_tasks.Prelude.{
  get_or, ℕ, ◌<◌, ◌≡◌, refl, ◌⊎◌, true, some, none, List, [], ◌∷◌, ◌++◌, length, take, drop,
  positions, reads, arith,
}
use os_tasks.RoundBuffer.{RoundBuffer, buf_advance_read_ptr}
use os_tasks.RoundBuffer.Inv.{IsValid, contents}
use os_tasks.Codec.{encode, decode, end_byte}
use os_tasks.Codec.Escape.{message, escape, escape_byte}
use os_tasks.Codec.Encoding.{encode_appends}
use os_tasks.Codec.Decoding.{decode_unescapes}
use os_tasks.Codec.RoundTrip.{decode-encode}
use os_tasks.Codec.SplitEscape.{decode_split_escape}

-- END, ESC and 65, round the end of the storage.
abbrev three_bytes : RoundBuffer
three_bytes = record { offset = 3; length = 3; capacity = 4; buffer = 127 ∷ 65 ∷ 0 ∷ 126 ∷ [] }

abbrev tunnel : RoundBuffer
tunnel = record {
  offset = 0;
  length = 0;
  capacity = 9;
  buffer = 0 ∷ 0 ∷ 0 ∷ 0 ∷ 0 ∷ 0 ∷ 0 ∷ 0 ∷ 0 ∷ [];
}

-- 1 and 2.
abbrev target : RoundBuffer
target = record { offset = 1; length = 2; capacity = 6; buffer = 0 ∷ 1 ∷ 2 ∷ 0 ∷ 0 ∷ 0 ∷ [] }

-- A tunnel buffer with 4 free bytes.
abbrev nearly_full : RoundBuffer
nearly_full = record { offset = 1; length = 2; capacity = 6; buffer = 0 ∷ 1 ∷ 2 ∷ 0 ∷ 0 ∷ 0 ∷ [] }

-- ESC, END, 66, END and 5.
abbrev arrived : RoundBuffer
arrived = record {
  offset = 1;
  length = 5;
  capacity = 6;
  buffer = 0 ∷ 127 ∷ 126 ∷ 66 ∷ 126 ∷ 5 ∷ [];
}

-- ESC at the end of the storage.
abbrev cut : RoundBuffer
cut = record { offset = 3; length = 1; capacity = 4; buffer = 0 ∷ 0 ∷ 0 ∷ 127 ∷ [] }

three_bytes-IsValid : IsValid three_bytes
three_bytes-IsValid = omega arith

tunnel-IsValid : IsValid tunnel
tunnel-IsValid = omega arith

target-IsValid : IsValid target
target-IsValid = omega arith

arrived-IsValid : IsValid arrived
arrived-IsValid = omega arith

cut-IsValid : IsValid cut
cut-IsValid = omega arith

decode-encode_example :
    (src' : RoundBuffer) × (tunnel' : RoundBuffer) × (tunnel'' : RoundBuffer) × (dst' : RoundBuffer)
    × (xs : List ℕ) × (encode three_bytes tunnel 5 ≡ some (true, src', tunnel'))
    × (contents three_bytes ≡ xs ++ contents src')
    × (decode (buf_advance_read_ptr tunnel' 2).1 target ≡ some (true, tunnel'', dst'))
    × (contents dst' ≡ contents target ++ xs)
    × (contents tunnel'' ≡ [])
unfolding reads positions
decode-encode_example =
    decode-encode three_bytes tunnel target 5 three_bytes-IsValid tunnel-IsValid (omega arith)
      target-IsValid (omega arith) refl (omega arith) (omega arith) (omega arith)

-- All three bytes fit in 9.
encode_appends_example :
    (k : ℕ) × (src' : RoundBuffer) × (dst' : RoundBuffer) × (encode three_bytes tunnel 5
      ≡ some (true, src', dst'))
    × (contents src' ≡ drop k (contents three_bytes))
    × (contents dst' ≡ contents tunnel ++ message 5 (take k (contents three_bytes)))
    × ((k ≡ 3) ⊎ (9 < length (message 5 (take (ℕ.suc k) (contents three_bytes)))))
    × ((0 < k) ⊎ ((k ≡ 0) × (get_or (contents three_bytes) 0 0 ≡ end_byte) × ◌≡◌ {A = ℕ} 9 4))
    × IsValid src'
    × IsValid dst'
encode_appends_example =
    encode_appends three_bytes tunnel 5 three_bytes-IsValid tunnel-IsValid (omega arith)
      (omega arith) (omega arith) (λ e. omega arith)

decode_unescapes_example :
    (src' : RoundBuffer) × (dst' : RoundBuffer) × (decode arrived target ≡ some (true, src', dst'))
    × (contents src' ≡ 5 ∷ [])
    × (contents dst' ≡ 1 ∷ 2 ∷ 126 ∷ 66 ∷ [])
    × IsValid src'
    × IsValid dst'
unfolding reads positions escape escape_byte
decode_unescapes_example =
    decode_unescapes arrived target (126 ∷ 66 ∷ []) (126 ∷ 5 ∷ []) true arrived-IsValid
      target-IsValid (omega arith) (omega arith) refl (omega arith) (5 ∷ [], refl, omega arith)

decode_split_escape_example : decode cut target ≡ none
unfolding reads positions
decode_split_escape_example =
    decode_split_escape cut target cut-IsValid target-IsValid (omega arith) refl refl
