-- ===== src/BufIter/Walk.antt =====
-- The iterators of a valid buffer walk its data and its free places, in order.
use os_tasks.Prelude.{
  ℕ, zero, suc, ◌+◌, ◌-◌, ◌^◌, ◌≤◌, ◌<◌, ◌≡◌, ◌≢◌, refl, true, false, not, List, [], ◌∷◌, ◌++◌,
  arith, is_nil, length, span, positions,
}
use mathlib.Core.Path.{subst}
use native.Mathlib.Decide.{dec_lt}
use os_tasks.RoundBuffer.{RoundBuffer, Iovec, iovec, buf_reading_iov, buf_writing_iov, spans}
use os_tasks.RoundBuffer.Inv.{IsValid, IsUnwrapped}
use os_tasks.RoundBuffer.Reading.{spans-buf_reading_iov}
use os_tasks.RoundBuffer.Writing.{spans-buf_writing_iov}
use os_tasks.BufIter.{
  BufIter, nth_iov, buf_iter_next, prepare_buf_iter, get_read_iter, get_write_iter,
}

reading_one :
    (buf : RoundBuffer)
    → IsValid buf
    → 0 < buf.length
    → IsUnwrapped buf
    → buf_reading_iov buf ≡ iovec buf.offset buf.length ∷ []
unfolding buf_reading_iov
reading_one buf v p u = ground arith

reading_two :
    (buf : RoundBuffer)
    → IsValid buf
    → buf.capacity < buf.offset + buf.length
    → buf_reading_iov buf
      ≡ iovec buf.offset (buf.capacity - buf.offset)
        ∷ iovec 0 (buf.offset + buf.length - buf.capacity)
        ∷ []
unfolding buf_reading_iov
reading_two buf v u = ground arith

-- From `iter` on, the iterator visits the places `is`, all below `n`, and then ends.
abbrev pub Walks : ℕ → BufIter → List ℕ → Type 0
Walks n iter [] = Unit
Walks n iter (i ∷ is) =
    (iter.ptr ≡ i)
    × (i < n)
    × ((buf_iter_next iter).0 ≡ not (is_nil is))
    × Walks n (buf_iter_next iter).1 is

-- What comes after the iovec `ind`.
abbrev After : ℕ → List Iovec → ℕ → List ℕ → Type 0
After n iov ind [] = ind + 1 ≡ length iov
After n iov ind (r ∷ rest) =
    (ind + 1 ≢ length iov)
    × Walks n
        (record {
          iov = iov;
          iov_ind = ind + 1;
          ptr = (nth_iov iov (ind + 1)).iov_base;
          rem = (nth_iov iov (ind + 1)).iov_len;
        })
        (r ∷ rest)

abbrev at : List Iovec → ℕ → ℕ → ℕ → BufIter
at iov ind ptr rem = record { iov = iov; iov_ind = ind; ptr = ptr; rem = rem }

next_inside :
    (iov : List Iovec) (ind ptr k : ℕ)
    → k + 2 < 2 ^ 64
    → buf_iter_next (at iov ind ptr (suc (suc k))) ≡ (true, at iov ind (ptr + 1) (suc k))
unfolding buf_iter_next
next_inside iov ind ptr k h = ground arith

next_jump :
    (iov : List Iovec) (ind ptr : ℕ)
    → ind + 1 ≢ length iov
    → buf_iter_next (at iov ind ptr 1)
      ≡ (true, at iov (ind + 1) (nth_iov iov (ind + 1)).iov_base (nth_iov iov (ind + 1)).iov_len)
unfolding buf_iter_next
next_jump iov ind ptr h = ground arith

next_end :
    (iov : List Iovec) (ind ptr : ℕ)
    → ind + 1 ≡ length iov
    → (buf_iter_next (at iov ind ptr 1)).0 ≡ false
unfolding buf_iter_next
next_end iov ind ptr h = ground arith

Walks-span :
    (n : ℕ) (iov : List Iovec) (ind ptr k : ℕ) (rest : List ℕ)
    → k + 1 < 2 ^ 64
    → ptr + k < n
    → After n iov ind rest
    → Walks n (at iov ind ptr (suc k)) (span ptr (suc k) ++ rest)
unfolding span
Walks-span n iov ind ptr zero [] h b a = (refl, omega arith, next_end iov ind ptr a, tt)
Walks-span n iov ind ptr zero (r ∷ rest) h b a =
    (refl, omega arith, rw (next_jump iov ind ptr a.0), rw (next_jump iov ind ptr a.0) a.1)
Walks-span n iov ind ptr (suc k) rest h b a = (
  refl,
  omega arith,
  rw (next_inside iov ind ptr k (omega arith)),
  rw (next_inside iov ind ptr k (omega arith))
      (Walks-span n iov ind (ptr + 1) k rest (omega arith) (omega arith) a),
)

-- The same, for a length that is not written with `suc`.
Walks-span_pos :
    (n : ℕ) (iov : List Iovec) (ind ptr k : ℕ) (rest : List ℕ)
    → 0 < k
    → k < 2 ^ 64
    → ptr + k ≤ n
    → After n iov ind rest
    → Walks n (at iov ind ptr k) (span ptr k ++ rest)
Walks-span_pos n iov ind ptr zero rest p h b a = absurd (omega arith)
Walks-span_pos n iov ind ptr (suc k) rest p h b a =
    Walks-span n iov ind ptr k rest (omega arith) (omega arith) a

Walks-one :
    (n base len : ℕ)
    → 0 < len
    → len < 2 ^ 64
    → base + len ≤ n
    → let iov = iovec base len ∷ [] in Walks n (prepare_buf_iter iov) (spans iov)
unfolding prepare_buf_iter spans
Walks-one n base len p h b =
    Walks-span_pos n (iovec base len ∷ []) 0 base len [] p h b (omega arith)

Walks-two :
    (n base len len' : ℕ)
    → 0 < len
    → len < 2 ^ 64
    → base + len ≤ n
    → 0 < len'
    → len' < 2 ^ 64
    → len' ≤ n
    → let iov = iovec base len ∷ iovec 0 len' ∷ [] in Walks n (prepare_buf_iter iov) (spans iov)
unfolding prepare_buf_iter span spans
Walks-two n base len zero p h b p' h' b' = absurd (omega arith)
Walks-two n base len (suc k) p h b p' h' b' =
    Walks-span_pos n iov 0 base len (span 0 (suc k) ++ []) p h b
      (omega arith, Walks-span n iov 1 0 k [] (omega arith) (omega arith) (omega arith))
  where
    iov : List Iovec
    iov = iovec base len ∷ iovec 0 (suc k) ∷ []

-- The read iterator of a buffer that is not empty visits the places of its data, in order.
pub get_read_iter-Walks :
    (buf : RoundBuffer)
    → IsValid buf
    → 0 < buf.length
    → Walks buf.capacity (get_read_iter buf) (positions buf.capacity buf.offset buf.length)
unfolding get_read_iter
get_read_iter-Walks buf v p =
    rw (← spans-buf_reading_iov buf v) (elim (dec_lt buf.capacity (buf.offset + buf.length)) [
      | no u ↦
          rw (reading_one buf v p (omega arith))
            (Walks-one buf.capacity buf.offset buf.length p (omega arith) (omega arith))
      | yes u ↦ rw (reading_two buf v u) (
          Walks-two buf.capacity buf.offset (buf.capacity - buf.offset)
            (buf.offset + buf.length - buf.capacity) (omega arith) (omega arith) (omega arith)
            (omega arith) (omega arith) (omega arith))
    ])

module _ (buf : RoundBuffer) (v : IsValid buf) (u : IsUnwrapped buf)
    (p : buf.length < buf.capacity) where
  abbrev end : ℕ
  end = buf.offset + buf.length

  writing_start : end ≡ buf.capacity → buf_writing_iov buf ≡ iovec 0 buf.offset ∷ []
  unfolding buf_writing_iov
  writing_start e = ground arith

  writing_end : buf.offset ≡ 0 → buf_writing_iov buf ≡ iovec end (buf.capacity - end) ∷ []
  unfolding buf_writing_iov
  writing_end e = ground arith

  writing_two :
      end < buf.capacity
      → 0 < buf.offset
      → buf_writing_iov buf ≡ iovec end (buf.capacity - end) ∷ iovec 0 buf.offset ∷ []
  unfolding buf_writing_iov
  writing_two h k = ground arith

  writing_walks :
      Walks buf.capacity (prepare_buf_iter (buf_writing_iov buf)) (spans (buf_writing_iov buf))
  writing_walks = elim (dec_lt end buf.capacity) [
    | no h ↦
        rw (writing_start (omega arith))
          (Walks-one buf.capacity 0 buf.offset (omega arith) (omega arith) (omega arith))
    | yes h ↦ elim (dec_lt 0 buf.offset) [
      | no k ↦ rw (writing_end (omega arith)) (
          Walks-one buf.capacity end (buf.capacity - end) (omega arith) (omega arith) (omega arith))
      | yes k ↦ rw (writing_two h k) (
          Walks-two buf.capacity end (buf.capacity - end) buf.offset (omega arith) (omega arith)
            (omega arith) k (omega arith) (omega arith))
    ]
  ]

  -- The write iterator of a buffer with room, its data not going round the end, visits the free
  -- places, in order.
  pub get_write_iter-Walks :
      Walks buf.capacity
        (get_write_iter buf)
        (positions buf.capacity (buf.offset + buf.length) (buf.capacity - buf.length))
  unfolding get_write_iter
  get_write_iter-Walks =
      subst (Walks buf.capacity (get_write_iter buf)) (spans-buf_writing_iov buf v u) writing_walks
