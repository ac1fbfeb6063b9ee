-- ===== src/RoundBuffer/Overwrite.antt =====
-- `buf_read` where the unread data goes round the end of the storage.
use os_tasks.Prelude.{
  ℕ, zero, suc, ◌+◌, ◌-◌, ◌%◌, ◌<◌, min, ◌≡◌, refl, ap, ◌∙◌, some, List, [], ◌∷◌, append-nil, arith,
  span, positions, reads, fill, length, get_elem?, get_or, set, get_or-set_ne, get_or-set_self,
  length-span,
}
use native.Mathlib.Nat.{add-zero, mod_self}
use os_tasks.RoundBuffer.{RoundBuffer, buf_writing_iov, spans, Received, received, buf_read}
use os_tasks.RoundBuffer.Inv.{IsValid, contents}
use os_tasks.RoundBuffer.Writing.{buf_read_stored}

get_elem?-reads-positions :
    (mem : List ℕ) (size p n i : ℕ)
    → i < n
    → get_elem? (reads 0 mem (positions size p n)) i ≡ some (get_or mem ((p + i) % size) 0)
unfolding reads positions
get_elem?-reads-positions mem size p zero i h = absurd (omega arith)
get_elem?-reads-positions mem size p (suc n) zero h = rw add-zero
get_elem?-reads-positions mem size p (suc n) (suc i) h =
    get_elem?-reads-positions mem size (p + 1) n i (omega arith)
    ∙ ap (λ k. some (get_or mem (k % size) 0)) (let e : p + 1 + i ≡ p + suc i = omega arith in e)

get_or-fill_below :
    (mem : List ℕ) (a n j : ℕ) (xs : List ℕ)
    → j < a
    → get_or (fill mem (span a n) xs) j 0 ≡ get_or mem j 0
unfolding fill span
get_or-fill_below mem a zero j xs h = refl
get_or-fill_below mem a (suc n) j [] h = refl
get_or-fill_below mem a (suc n) j (x ∷ xs) h =
    get_or-fill_below (set mem a x) (a + 1) n j xs (omega arith)
    ∙ get_or-set_ne mem x 0 (λ e. omega arith)

spans-wrapped :
    (buf : RoundBuffer)
    → IsValid buf
    → buf.capacity < buf.offset + buf.length
    → buf.length < buf.capacity
    → spans (buf_writing_iov buf) ≡ span 0 buf.offset
unfolding buf_writing_iov spans
spans-wrapped buf v u h = ground (arith, append-nil (span 0 buf.offset))

first_overwritten :
    (mem : List ℕ) (n x : ℕ) (xs : List ℕ)
    → 0 < n
    → 0 < length mem
    → get_or (fill mem (span 0 n) (x ∷ xs)) 0 0 ≡ x
unfolding fill span
first_overwritten mem zero x xs h k = absurd (omega arith)
first_overwritten mem (suc n) x xs h k =
    get_or-fill_below (set mem 0 x) 1 n 0 xs (omega arith) ∙ get_or-set_self mem 0 x 0 k

-- Where the unread data goes round the end and there is room left, `buf_read` overwrites data: the
-- unread byte at the start of the storage, at index `capacity - offset` of the contents, is
-- replaced by the first byte received.
pub buf_read_wrapped :
    (readv : ℕ → Received) (buf : RoundBuffer) (x : ℕ) (xs : List ℕ)
    → IsValid buf
    → buf.capacity < buf.offset + buf.length
    → buf.length < buf.capacity
    → readv buf.offset ≡ received (x ∷ xs)
    → (get_elem? (contents buf) (buf.capacity - buf.offset) ≡ some (get_or buf.buffer 0 0))
      × (get_elem? (contents (buf_read readv buf).1) (buf.capacity - buf.offset) ≡ some x)
buf_read_wrapped readv buf x xs v u h e = (
  at_start buf.buffer buf.length (omega arith),
  rw (
    buf_read_stored readv buf (span 0 buf.offset) (x ∷ xs) v h (spans-wrapped buf v u h)
        (rw (length-span 0 buf.offset) e),
    at_start mem (buf.length + min (suc (length xs)) (buf.capacity - buf.length)) (omega arith),
    first_overwritten buf.buffer buf.offset x xs (omega arith) (omega arith),
  ),
)
  where
    mem : List ℕ
    mem = fill buf.buffer (span 0 buf.offset) (x ∷ xs)

    at_start :
        (m : List ℕ) (n : ℕ)
        → buf.capacity < buf.offset + n
        → get_elem? (reads 0 m (positions buf.capacity buf.offset n)) (buf.capacity - buf.offset)
          ≡ some (get_or m 0 0)
    at_start m n l =
        get_elem?-reads-positions m buf.capacity buf.offset n (buf.capacity - buf.offset)
          (omega arith)
        ∙ ap (λ k. some (get_or m k 0))
            (ap (λ k. k % buf.capacity)
                (let e : buf.offset + (buf.capacity - buf.offset) ≡ buf.capacity = omega arith in e)
              ∙ mod_self buf.capacity)
