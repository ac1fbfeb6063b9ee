-- ===== src/RoundBuffer/Inv.antt =====
-- The representation invariant of `struct round_buffer`, and what a buffer holds.
use os_tasks.Prelude.{
  ℕ, ◌+◌, ◌^◌, ◌≤◌, ◌<◌, ◌≡◌, List, positions, reads, length, length-reads, length-positions, ◌∙◌,
}
use os_tasks.RoundBuffer.{RoundBuffer}

pub record IsValid (buf : RoundBuffer) : Type 0 where
  pub storage : length buf.buffer ≡ buf.capacity
  pub small : buf.capacity ≤ 2 ^ 62
  pub length_in : buf.length ≤ buf.capacity
  pub offset_in : buf.offset < buf.capacity

-- The bytes that were written and not yet read, oldest first.
abbrev pub contents : RoundBuffer → List ℕ
contents buf = reads 0 buf.buffer (positions buf.capacity buf.offset buf.length)

pub length-contents : (buf : RoundBuffer) → length (contents buf) ≡ buf.length
length-contents buf =
    length-reads 0 buf.buffer (positions buf.capacity buf.offset buf.length)
    ∙ length-positions buf.capacity buf.offset buf.length

-- The data does not go round the end of the storage.
abbrev pub IsUnwrapped : RoundBuffer → Type 0
IsUnwrapped buf = buf.offset + buf.length ≤ buf.capacity
