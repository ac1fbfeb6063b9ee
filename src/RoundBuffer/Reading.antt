-- ===== src/RoundBuffer/Reading.antt =====
-- What leaves a buffer: the reading iovecs, `buf_peek`, `buf_advance_read_ptr` and `buf_write`.
use os_tasks.Prelude.{
  ne_zero, ℕ, zero, suc, ◌+◌, ◌-◌, ◌%◌, ◌≤◌, ◌<◌, min, ◌≡◌, ◌≢◌, refl, sym, ap, ◌∙◌, none, some,
  List, [], ◌∷◌, append-nil, arith, ltb, ◌==◌, if◌then◌else◌, is_nil, span, positions, reads, take,
  drop, pos, negsuc, length-span, length-reads, positions_eq_span, positions_wrap,
  reads-positions_later, drop-all, reads-append, reads-take, ◌⊎◌, inl, inr, get_elem?-eq-get_or,
  take-append,
}
use native.Mathlib.Nat.{mod-lt, mod-eq_of_lt}
use native.Mathlib.Decide.{dec_lt, ℕ_discrete}
use os_tasks.RoundBuffer.{
  RoundBuffer, Iovec, buf_reading_iov, spans, buf_advance_read_ptr, peek_loop, buf_peek,
  buf_peek_byte, Sent, sent, Errno, write_failed, count, failed, buf_write,
}
use os_tasks.RoundBuffer.Inv.{IsValid, contents, length-contents}

-- The reading iovecs cover the places of the data, in order and without wrap-around of `size_t`.
pub spans-buf_reading_iov :
    (buf : RoundBuffer)
    → IsValid buf
    → spans (buf_reading_iov buf) ≡ positions buf.capacity buf.offset buf.length
unfolding buf_reading_iov spans span positions
spans-buf_reading_iov buf v = ground (
  arith,
  append-nil (span buf.offset buf.length),
  append-nil (span 0 (buf.offset + buf.length - buf.capacity)),
  positions_eq_span buf.capacity buf.offset buf.length,
  positions_wrap buf.capacity buf.offset buf.length,
)

pub buf_reading_iov_nil : (buf : RoundBuffer) → is_nil (buf_reading_iov buf) ≡ (buf.length == 0)
unfolding buf_reading_iov
buf_reading_iov_nil buf = ground arith

suc_pred : (n : ℕ) → n ≢ 0 → n ≡ suc (n - 1)
suc_pred n h = omega arith

-- `buf_peek_byte` is -1 on an empty buffer, and else the oldest byte; it reads 0 in the storage.
pub buf_peek_byte_lem :
    (buf : RoundBuffer)
    → IsValid buf
    → buf_peek_byte buf ≡ some (elim (contents buf) [ [] ↦ negsuc 0 | x ∷ xs ↦ pos x ])
unfolding buf_peek_byte reads positions
buf_peek_byte_lem buf v = elim (ℕ_discrete buf.length 0) [
  | yes e ↦ rw e
  | no e ↦ ground (
    arith,
    get_elem?-eq-get_or buf.buffer buf.offset 0,
    suc_pred buf.length e,
    mod-eq_of_lt v.offset_in,
  )
]

buf_advance_read_ptr_all :
    (buf : RoundBuffer) (n : ℕ)
    → buf.length ≤ n
    → buf_advance_read_ptr buf n ≡ (buf.length, record buf { length = 0; offset = 0 })
unfolding buf_advance_read_ptr
buf_advance_read_ptr_all buf n h = ground arith

buf_advance_read_ptr_some :
    (buf : RoundBuffer) (n : ℕ)
    → IsValid buf
    → n < buf.length
    → buf_advance_read_ptr buf n
      ≡ (n, record buf { length = buf.length - n; offset = (buf.offset + n) % buf.capacity })
unfolding buf_advance_read_ptr
buf_advance_read_ptr_some buf n v h = ground arith

-- What `buf_advance_read_ptr` leaves, by fields.
pub record Advanced (buf : RoundBuffer) (n : ℕ) (out : ℕ × RoundBuffer) : Type 0 where
  pub result : out.0 ≡ min n buf.length
  pub holds : contents out.1 ≡ drop n (contents buf)
  pub length_left : out.1.length ≡ buf.length - n
  pub same_capacity : out.1.capacity ≡ buf.capacity
  pub valid : IsValid out.1

-- `buf_advance_read_ptr` drops the `n` oldest bytes, or all if there are fewer, returns how many,
-- and keeps the invariant.
pub buf_advance_read_ptr_lem :
    (buf : RoundBuffer) (n : ℕ) → IsValid buf → Advanced buf n (buf_advance_read_ptr buf n)
unfolding positions reads
buf_advance_read_ptr_lem buf n v = elim (dec_lt n buf.length) [
  | yes h ↦ rw (buf_advance_read_ptr_some buf n v h) (record {
    result = omega arith;
    holds = reads-positions_later 0 buf.buffer buf.capacity buf.offset buf.length n;
    length_left = refl;
    same_capacity = refl;
    valid = omega (arith, mod-lt (buf.offset + n) {m = buf.capacity});
  })
  | no h ↦ rw (buf_advance_read_ptr_all buf n (omega arith)) (record {
    result = omega arith;
    holds = sym (drop-all n (contents buf) (omega (arith, length-contents buf)));
    length_left = omega arith;
    same_capacity = refl;
    valid = omega arith;
  })
]

pub take-span : (n a k : ℕ) → take n (span a k) ≡ span a (min n k)
unfolding span
take-span zero a k = ap (span a) (let e : zero ≡ min zero k = omega arith in e)
take-span (suc n) a zero = ap (span a) (let e : zero ≡ min (suc n) zero = omega arith in e)
take-span (suc n) a (suc k) =
    ap (λ l. a ∷ l) (take-span n (a + 1) k)
    ∙ ap (span a) (let e : suc (min n k) ≡ min (suc n) (suc k) = omega arith in e)

peek_loop_lem :
    (buffer : List ℕ) (iov : List Iovec) (n : ℕ)
    → peek_loop buffer iov n ≡ take n (reads 0 buffer (spans iov))
unfolding peek_loop reads spans
peek_loop_lem buffer [] zero = refl
peek_loop_lem buffer [] (suc n) = refl
peek_loop_lem buffer (v ∷ iov) n = ground (
  arith,
  peek_loop_lem buffer iov (n - (if ltb v.iov_len n then v.iov_len else n)),
  reads-append 0 buffer (span v.iov_base v.iov_len) (spans iov),
  take-append n (reads 0 buffer (span v.iov_base v.iov_len)) (reads 0 buffer (spans iov)),
  reads-take 0 buffer n (span v.iov_base v.iov_len),
  take-span n v.iov_base v.iov_len,
  length-reads 0 buffer (span v.iov_base v.iov_len),
  length-span v.iov_base v.iov_len,
)

-- `buf_peek` is -1 on an empty buffer, and else copies the `n` oldest bytes, or all if there are
-- fewer, without taking them out.
pub buf_peek_lem :
    (buf : RoundBuffer) (n : ℕ)
    → IsValid buf
    → buf_peek buf n ≡ (if buf.length == 0 then none else some (take n (contents buf)))
unfolding buf_peek
buf_peek_lem buf n v = rw (
  buf_reading_iov_nil buf,
  peek_loop_lem buf.buffer (buf_reading_iov buf) n,
  spans-buf_reading_iov buf v,
)

-- `buf_write` hands the contents to `writev`; it takes out what was sent, and nothing on an error.
pub buf_write_lem :
    (writev : List ℕ → Sent) (buf : RoundBuffer)
    → IsValid buf
    → buf.length ≢ 0
    → buf_write writev buf ≡ elim (writev (contents buf)) [
      | sent n ↦ (count n, (buf_advance_read_ptr buf n).1)
      | write_failed e ↦ (failed e, buf)
    ]
unfolding buf_write
buf_write_lem writev buf v h =
    rw (buf_reading_iov_nil buf, ne_zero buf.length h, spans-buf_reading_iov buf v)

-- `buf_write` hands the contents to `writev`; the `n` bytes it reports as sent are taken out, oldest
-- first, their number is the result, and the buffer stays valid.
pub buf_write_drops :
    (writev : List ℕ → Sent) (buf : RoundBuffer) (n : ℕ)
    → IsValid buf
    → buf.length ≢ 0
    → writev (contents buf) ≡ sent n
    → (buf' : RoundBuffer) × (buf_write writev buf ≡ (count n, buf'))
      × (contents buf' ≡ drop n (contents buf))
      × IsValid buf'
buf_write_drops writev buf n v h e =
    let a = buf_advance_read_ptr_lem buf n v in
    ((buf_advance_read_ptr buf n).1, rw (buf_write_lem writev buf v h, e), a.holds, a.valid)

-- A buffer stays as it is where `buf_write` has nothing to send or `writev` fails.
pub buf_write_unchanged :
    (writev : List ℕ → Sent) (buf : RoundBuffer)
    → IsValid buf
    → (buf.length ≡ 0) ⊎ ((err : Errno) × (writev (contents buf) ≡ write_failed err))
    → (buf_write writev buf).1 ≡ buf
unfolding buf_write
buf_write_unchanged writev buf v (inl e) = rw (buf_reading_iov_nil buf, e)
buf_write_unchanged writev buf v (inr (err, e)) = elim (ℕ_discrete buf.length 0) [
  | yes z ↦ rw (buf_reading_iov_nil buf, z)
  | no h ↦ rw (buf_reading_iov_nil buf, ne_zero buf.length h, spans-buf_reading_iov buf v, e)
]
