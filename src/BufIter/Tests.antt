-- ===== src/BufIter/Tests.antt =====
-- A walk over a small buffer.
use os_tasks.Prelude.{◌≡◌, refl, false, [], ◌∷◌}
use os_tasks.RoundBuffer.{RoundBuffer, buf_reading_iov}
use os_tasks.BufIter.{BufIter, buf_iter_next, get_read_iter}

-- 7, 8, then 9, round the end of the storage.
abbrev wrapped : RoundBuffer
wrapped = record { offset = 3; length = 3; capacity = 5; buffer = 9 ∷ 0 ∷ 0 ∷ 7 ∷ 8 ∷ [] }

abbrev second : BufIter
second = (buf_iter_next (get_read_iter wrapped)).1

abbrev third : BufIter
third = (buf_iter_next second).1

places :
    ((get_read_iter wrapped).ptr ≡ 3)
    × (second.ptr ≡ 4)
    × (third.ptr ≡ 0)
    × ((buf_iter_next third).0 ≡ false)
unfolding buf_iter_next get_read_iter buf_reading_iov
places = (refl, refl, refl, refl)
