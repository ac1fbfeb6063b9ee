-- ===== src/UnixSocket/Writing.antt =====
-- `write_all` gives all of its buffer to each call of `write`.
use os_tasks.Prelude.{
  ℕ, ◌+◌, ◌≤◌, ◌<◌, ◌≡◌, ap, ◌∙◌, true, false, some, List, [], ◌∷◌, ◌++◌, arith, ltb, length, take,
  take-all, append-nil, lt→ltb,
}
use os_tasks.RoundBuffer.{Sent, sent, write_failed, Errno}
use os_tasks.UnixSocket.{write_loop, write_all, try_again}

-- The results of a loop over `len` bytes, of which `written` are counted: failures that are to be tried
-- again, and counts `ns` of at most `len` bytes, until `len` are reached, with `left` behind.
pub data Reaches (len : ℕ)
    : (written : ℕ) (results : List Sent) (ns : List ℕ) (left : List Sent) → Type 0 where
  reached : {written : ℕ} {left : List Sent} → len ≤ written → Reaches len written left [] left
  waits :
      {written : ℕ} {err : Errno} {results left : List Sent} {ns : List ℕ}
      → written < len
      → try_again err ≡ true
      → Reaches len written results ns left
      → Reaches len written (write_failed err ∷ results) ns left
  counts :
      {written n : ℕ} {results left : List Sent} {ns : List ℕ}
      → written < len
      → Reaches len (written + n) results ns left
      → Reaches len written (sent n ∷ results) (n ∷ ns) left

-- What the calls write: the beginning of the buffer, each time.
abbrev pub beginnings : List ℕ → (ns : List ℕ) → List ℕ
beginnings buf [] = []
beginnings buf (n ∷ ns) = take n buf ++ beginnings buf ns

not_below : (a b : ℕ) → b ≤ a → ltb a b ≡ false
not_below a b h = ground arith

module _ (buf : List ℕ) where
  loop_done :
      (written : ℕ) (left : List Sent)
      → length buf ≤ written
      → write_loop left written buf ≡ some (record { ok = true; out = []; left = left })
  unfolding write_loop
  loop_done written [] h = rw (not_below written (length buf) h)
  loop_done written (r ∷ left) h = rw (write_loop, not_below written (length buf) h)

  write_loop_lem :
      {written : ℕ} {results : List Sent} {ns : List ℕ} {left : List Sent}
      → Reaches (length buf) written results ns left
      → write_loop results written buf
        ≡ some (record { ok = true; out = beginnings buf ns; left = left })
  unfolding write_loop
  write_loop_lem (reached {written} {left} h) = loop_done written left h
  write_loop_lem (waits {written} h again r) =
      rw (write_loop, lt→ltb written (length buf) h, again) (write_loop_lem r)
  write_loop_lem (counts {written} {n} h r) =
      rw (write_loop, lt→ltb written (length buf) h, write_loop_lem r)

-- If the calls of `write` reach the buffer's length by the counts ns, with failures between them that
-- are tried again, `write_all` succeeds, and writes for each count that many bytes from the start of
-- the buffer.
pub write_all_lem :
    (buf : List ℕ) (results left : List Sent) (ns : List ℕ)
    → Reaches (length buf) 0 results ns left
    → write_all results buf ≡ some (record { ok = true; out = beginnings buf ns; left = left })
unfolding write_all
write_all_lem buf results left ns r = write_loop_lem buf r

-- One call of `write` that takes the whole buffer.
pub write_all_whole :
    (buf : List ℕ) (left : List Sent)
    → 0 < length buf
    → write_all (sent (length buf) ∷ left) buf ≡ some (record { ok = true; out = buf; left = left })
write_all_whole buf left h =
    write_all_lem buf (sent (length buf) ∷ left) left (length buf ∷ [])
      (Reaches.counts h (Reaches.reached (omega arith)))
    ∙ ap (λ out. some (record { ok = true; out = out; left = left }))
        (append-nil (take (length buf) buf) ∙ take-all (length buf) buf (omega arith))
