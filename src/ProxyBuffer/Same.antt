-- ===== src/ProxyBuffer/Same.antt =====
-- The proxy's buffer does what the later one of the port forwarding does, which limits the counts
-- that it is given.
use os_tasks.Prelude.{
  ℕ, ◌+◌, ◌-◌, ◌≤◌, ◌≡◌, refl, sym, ap, ◌∙◌, List, ◌==◌, if◌then◌else◌, arith, length, add_size,
  length-positions, reads, fill, is_nil, Bool-cases, inl, inr,
}
use os_tasks.RoundBuffer.{
  RoundBuffer, spans, buf_reading_iov, buf_writing_iov, buf_free_length, buf_advance_read_ptr,
  buf_advance_write_ptr, buf_read, buf_write, Received, received, read_failed, Sent, sent,
  write_failed, IoResult, count, failed, no_iov,
}
use os_tasks.RoundBuffer.Inv.{IsValid, IsUnwrapped, contents}
use os_tasks.RoundBuffer.Reading.{spans-buf_reading_iov}
use os_tasks.RoundBuffer.Writing.{spans-buf_writing_iov, buf_writing_iov_nil}
use os_tasks.ProxyBuffer.{make_write_iov, make_read_iov, after_write, write_rb, read_rb}

after_write_lem :
    (buf : RoundBuffer) (n : ℕ)
    → n ≤ buf.length
    → after_write n buf ≡ (buf_advance_read_ptr buf n).1
unfolding after_write buf_advance_read_ptr
after_write_lem buf n h = ground arith

read_iov_same : (buf : RoundBuffer) → make_read_iov buf ≡ buf_reading_iov buf
unfolding make_read_iov buf_reading_iov
read_iov_same buf = refl

write_iov_same : (buf : RoundBuffer) → make_write_iov buf ≡ buf_writing_iov buf
unfolding make_write_iov buf_writing_iov
write_iov_same buf = refl

abbrev result_of : (buf : RoundBuffer) (taken : ℕ → RoundBuffer) → Sent → IoResult × RoundBuffer
result_of buf taken r = elim r [ sent n ↦ (count n, taken n) | write_failed e ↦ (failed e, buf) ]

result_of_lem :
    (buf : RoundBuffer) (r : Sent)
    → ((n : ℕ) → r ≡ sent n → n ≤ buf.length)
    → result_of buf (λ n. after_write n buf) r
      ≡ result_of buf (λ n. (buf_advance_read_ptr buf n).1) r
result_of_lem buf (sent n) h = ap (λ b. (count n, b)) (after_write_lem buf n (h n refl))
result_of_lem buf (write_failed e) h = refl

-- Where `writev` does not claim more than it was given, `write_rb` does what `buf_write` does.
pub write_rb_lem :
    (writev : List ℕ → Sent) (buf : RoundBuffer)
    → IsValid buf
    → ((n : ℕ) → writev (contents buf) ≡ sent n → n ≤ buf.length)
    → write_rb writev buf ≡ buf_write writev buf
unfolding write_rb buf_write
write_rb_lem writev buf v h = rw (read_iov_same buf) (
    ap (λ r. if is_nil (buf_reading_iov buf) then (no_iov, buf) else r)
      (result_of_lem buf (writev (reads 0 buf.buffer (spans (buf_reading_iov buf)))) (λ n e.
        h n (ap (λ is. writev (reads 0 buf.buffer is)) (sym (spans-buf_reading_iov buf v)) ∙ e))))

counted :
    (buf : RoundBuffer) (bytes : List ℕ) (n : ℕ)
    → IsValid buf
    → n ≤ buf.capacity - buf.length
    → record buf { buffer = bytes; length = add_size buf.length n }
      ≡ (buf_advance_write_ptr (record buf { buffer = bytes }) n).1
unfolding buf_advance_write_ptr buf_free_length
counted buf bytes n v h = ground arith

abbrev result_of_read :
    (buf : RoundBuffer) (stored : List ℕ → RoundBuffer) → Received → IoResult × RoundBuffer
result_of_read buf stored r = elim r [
  | received xs ↦ (count (length xs), stored xs)
  | read_failed e ↦ (failed e, buf)
]

result_of_read_lem :
    (buf : RoundBuffer) (is : List ℕ) (r : Received)
    → IsValid buf
    → ((xs : List ℕ) → r ≡ received xs → length xs ≤ buf.capacity - buf.length)
    → result_of_read buf
        (λ xs. record buf {
          buffer = fill buf.buffer is xs;
          length = add_size buf.length (length xs);
        })
        r
      ≡ result_of_read buf
          (λ xs.
            (buf_advance_write_ptr (record buf { buffer = fill buf.buffer is xs }) (length xs)).1)
          r
result_of_read_lem buf is (received xs) v h =
    ap (λ b. (count (length xs), b)) (counted buf (fill buf.buffer is xs) (length xs) v (h xs refl))
result_of_read_lem buf is (read_failed e) v h = refl

-- Where the data does not go round the end of the storage and `readv` does not deliver more than
-- it was asked for, `read_rb` does what `buf_read` does.
pub read_rb_lem :
    (readv : ℕ → Received) (buf : RoundBuffer)
    → IsValid buf
    → IsUnwrapped buf
    → ((xs : List ℕ)
        → readv (buf.capacity - buf.length) ≡ received xs
        → length xs ≤ buf.capacity - buf.length)
    → read_rb readv buf ≡ buf_read readv buf
unfolding read_rb buf_read make_write_iov buf_writing_iov
read_rb_lem readv buf v u h =
    rw (write_iov_same buf) (elim (Bool-cases (buf.length == buf.capacity)) [
      | inl full ↦ rw (buf_writing_iov_nil buf v, full)
      | inr free ↦
          ap (λ r. if is_nil (buf_writing_iov buf) then (no_iov, buf) else r)
            (result_of_read_lem buf (spans (buf_writing_iov buf))
              (readv (length (spans (buf_writing_iov buf)))) v
              (λ xs e. h xs (
                ap readv (
                  sym (
                    ap (λ (l : List ℕ). length l) (spans-buf_writing_iov buf v u)
                    ∙ length-positions buf.capacity (buf.offset + buf.length)
                        (buf.capacity - buf.length)))
                ∙ e)))
    ])
