-- ===== src/ProxyBuffer/Tests.antt =====
-- A run of the proxy's buffer.
use os_tasks.Prelude.{ℕ, ◌≡◌, ap, List, [], ◌∷◌, length, take, length-take, arith}
use os_tasks.RoundBuffer.{RoundBuffer, Received, received, read_failed, buf_read}
use os_tasks.ProxyBuffer.{read_rb}
use os_tasks.ProxyBuffer.Same.{read_rb_lem}

-- 8, then 9, with free places on both sides.
abbrev halfway : RoundBuffer
halfway = record { offset = 1; length = 2; capacity = 5; buffer = 0 ∷ 8 ∷ 9 ∷ 0 ∷ 0 ∷ [] }

abbrev bytes : List ℕ
bytes = 5 ∷ 6 ∷ 7 ∷ []

abbrev arriving : ℕ → Received
arriving room = received (take room bytes)

received_length : Received → ℕ
received_length (received xs) = length xs
received_length (read_failed e) = 0

read_rb_example : read_rb arriving halfway ≡ buf_read arriving halfway
unfolding received_length
read_rb_example =
    read_rb_lem arriving halfway (omega arith) (omega arith)
      (λ xs e. omega (arith, ap received_length e, length-take 3 bytes))
