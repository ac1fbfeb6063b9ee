-- ===== src/BufIter.antt =====
-- 34-35. Port forwarding/pump.c, `struct buf_iter` and its functions: a walk over the bytes that a
-- buffer's iovecs cover. `iov_cnt` is the length of `iov`. C leaves the entries of `iov` from
-- `iov_cnt` on unset; here such an entry is empty.
pub mod Walk
mod Tests
use os_tasks.Prelude.{
  ℕ, ◌+◌, Bool, true, false, List, ◌==◌, if◌then◌else◌, sub_size, get_or, length,
}
use os_tasks.RoundBuffer.{RoundBuffer, Iovec, iovec, buf_reading_iov, buf_writing_iov}

pub record BufIter : Type 0 where
  pub iov : List Iovec
  pub iov_ind : ℕ
  pub ptr : ℕ
  pub rem : ℕ

abbrev pub nth_iov : List Iovec → ℕ → Iovec
nth_iov iov i = get_or iov i (iovec 0 0)

pub prepare_buf_iter : List Iovec → BufIter
prepare_buf_iter iov = record {
  iov = iov;
  iov_ind = 0;
  ptr = (nth_iov iov 0).iov_base;
  rem = (nth_iov iov 0).iov_len;
}

-- The result is 0 at the end of the last iovec.
unfoldable pub buf_iter_next : BufIter → Bool × BufIter
buf_iter_next iter =
    let ptr = iter.ptr + 1 in
    let rem = sub_size iter.rem 1 in
    let ind = iter.iov_ind + 1 in
    if rem == 0
    then (if ind == length iter.iov
        then (false, record iter { ptr = ptr; rem = rem; iov_ind = ind })
        else (
          true,
          record iter {
            iov_ind = ind;
            rem = (nth_iov iter.iov ind).iov_len;
            ptr = (nth_iov iter.iov ind).iov_base;
          },
        ))
    else (true, record iter { ptr = ptr; rem = rem })

unfoldable pub get_read_iter : RoundBuffer → BufIter
unfolding prepare_buf_iter
get_read_iter buf = prepare_buf_iter (buf_reading_iov buf)

unfoldable pub get_write_iter : RoundBuffer → BufIter
unfolding prepare_buf_iter
get_write_iter buf = prepare_buf_iter (buf_writing_iov buf)
