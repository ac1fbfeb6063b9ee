-- ===== src/TcpClients/Echo.antt =====
-- A client of a server that sends back what it gets: in one piece, and in two.
use os_tasks.Prelude.{
  ne_zero, ℕ, zero, suc, ◌+◌, ◌-◌, ◌^◌, ◌≤◌, ◌<◌, ◌≡◌, ◌≢◌, refl, ap, ◌∙◌, true, false, none, some,
  List, [], ◌∷◌, ◌++◌, map, arith, ◌==◌, length, take, drop, get_elem?, sub_size, length-take,
  length-drop, length-map, drop-all, append-nil,
}
use os_tasks.RoundBuffer.{Received, received, Sent, sent}
use os_tasks.TcpClients.{
  buf_size, write_loop, read_loop, next_char, compare_loop, Exchange, finished, mismatch,
  child_loop, numbers, child_main,
}

sub_all : (n : ℕ) → n < 2 ^ 64 → sub_size n n ≡ 0
sub_all n h = omega arith

sub_less : (n k : ℕ) → n < 2 ^ 64 → k ≤ n → sub_size n k ≡ n - k
sub_less n k h l = omega arith

write_done : (results : List Sent) (buf : List ℕ) → write_loop results 0 buf ≡ some (some [])
unfolding write_loop
write_done [] buf = refl
write_done (r ∷ results) buf = refl

read_done :
    (results : List Received) (recv_buf : List ℕ)
    → read_loop results 0 recv_buf ≡ some (some recv_buf)
unfolding read_loop
read_done [] recv_buf = refl
read_done (r ∷ results) recv_buf = refl

write_whole :
    (results : List Sent) (buf : List ℕ)
    → 0 < length buf
    → length buf < 2 ^ 64
    → (out : List ℕ) × (write_loop (sent (length buf) ∷ results) (length buf) buf ≡ some (some out))
unfolding write_loop
write_whole results buf h l = (
  take (length buf) buf ++ [],
  rw
      (
        write_loop,
        ne_zero (length buf) (λ e. omega arith),
        sub_all (length buf) l,
        write_done results buf,
      )
      refl,
)

read_piece :
    (results : List Received) (len : ℕ) (xs recv_buf : List ℕ)
    → 0 < len
    → len < 2 ^ 64
    → length xs ≤ len
    → read_loop (received xs ∷ results) len recv_buf
      ≡ read_loop results (len - length xs) (xs ++ drop (length xs) recv_buf)
unfolding read_loop
read_piece results len xs recv_buf h l k =
    rw (read_loop, ne_zero len (λ e. omega arith), sub_less len (length xs) l k)

compare_same : (buf : List ℕ) → compare_loop buf buf ≡ some (some (map next_char buf))
unfolding compare_loop
compare_same [] = refl
compare_same (x ∷ buf) =
    rw (compare_loop, (let e : (x == x) ≡ true = ground arith in e), compare_same buf)

-- The server sends back the whole buffer in each of `n` rounds.
abbrev pub Echoes : (n : ℕ) → List Exchange → (buf : List ℕ) → Type 0
Echoes zero rounds buf = Unit
Echoes (suc n) [] buf = ⊥
Echoes (suc n) (r ∷ rounds) buf =
    ((ws : List Sent) × (r.writes ≡ sent (length buf) ∷ ws))
    × ((rs : List Received) × (r.reads ≡ received buf ∷ rs))
    × Echoes n rounds (map next_char buf)

-- The buffer after `n` rounds.
abbrev pub after : (n : ℕ) → List ℕ → List ℕ
after zero buf = buf
after (suc n) buf = after n (map next_char buf)

module _ (n : ℕ) (r : Exchange) (rounds : List Exchange) (buf recv_buf : List ℕ) where
  round_next :
      (out got next : List ℕ)
      → write_loop r.writes (length buf) buf ≡ some (some out)
      → read_loop r.reads (length recv_buf) recv_buf ≡ some (some got)
      → compare_loop buf got ≡ some (some next)
      → child_loop (suc n) (r ∷ rounds) buf recv_buf ≡ child_loop n rounds next got
  unfolding child_loop
  round_next out got next w g c = rw (w, g, c)

  round_differs :
      (out got : List ℕ)
      → write_loop r.writes (length buf) buf ≡ some (some out)
      → read_loop r.reads (length recv_buf) recv_buf ≡ some (some got)
      → compare_loop buf got ≡ some none
      → child_loop (suc n) (r ∷ rounds) buf recv_buf ≡ some mismatch
  unfolding child_loop
  round_differs out got w g c = rw (w, g, c)

read_whole :
    (results : List Received) (buf recv_buf : List ℕ)
    → 0 < length buf
    → length buf < 2 ^ 64
    → length recv_buf ≡ length buf
    → read_loop (received buf ∷ results) (length recv_buf) recv_buf ≡ some (some buf)
read_whole results buf recv_buf h l e =
    read_piece results (length recv_buf) buf recv_buf (omega arith) (omega arith) (omega arith)
    ∙ ap (λ k. read_loop results k (buf ++ drop (length buf) recv_buf))
        (let f : length recv_buf - length buf ≡ 0 = omega arith in f)
    ∙ read_done results (buf ++ drop (length buf) recv_buf)
    ∙ ap (λ b. some (some b))
        (ap (λ t. buf ++ t) (drop-all (length buf) recv_buf (omega arith)) ∙ append-nil buf)

-- If the server sends back the whole buffer in each of the rounds, in one piece, the loop of
-- `child_main` finishes: no byte differs, and each byte of the buffer is raised by one, modulo 256,
-- in each round.
pub child_loop_echo :
    (n : ℕ) (rounds : List Exchange) (buf recv_buf : List ℕ)
    → 0 < length buf
    → length buf < 2 ^ 64
    → length recv_buf ≡ length buf
    → Echoes n rounds buf
    → child_loop n rounds buf recv_buf ≡ some (finished (after n buf))
unfolding child_loop
child_loop_echo zero rounds buf recv_buf h l e echo = refl
child_loop_echo (suc n) [] buf recv_buf h l e echo = absurd echo
child_loop_echo (suc n) (r ∷ rounds) buf recv_buf h l e ((ws, w), (rs, g), echo) =
    let (out, run) = write_whole ws buf h l in
    let longer = length-map buf next_char in
    round_next n r rounds buf recv_buf out buf (map next_char buf)
      (ap (λ s. write_loop s (length buf) buf) w ∙ run)
      (ap (λ s. read_loop s (length recv_buf) recv_buf) g ∙ read_whole rs buf recv_buf h l e)
      (compare_same buf)
    ∙ child_loop_echo n rounds (map next_char buf) buf (omega arith) (omega arith) (omega arith)
        echo

-- What two reads of a buffer leave: the second piece stands where the first was.
read_two :
    (results : List Received) (buf recv_buf : List ℕ) (k : ℕ)
    → 0 < k
    → k < length buf
    → length buf < 2 ^ 64
    → length recv_buf ≡ length buf
    → (rest : List ℕ) × (read_loop
          (received (take k buf) ∷ received (drop k buf) ∷ results)
          (length recv_buf)
          recv_buf
        ≡ some (some (drop k buf ++ rest)))
read_two results buf recv_buf k low high l e =
    let taken = length-take k buf in
    let dropped = length-drop k buf in
    let first = take k buf ++ drop (length (take k buf)) recv_buf in
    (
      drop (length (drop k buf)) first,
      read_piece (received (drop k buf) ∷ results) (length recv_buf) (take k buf) recv_buf
            (omega arith) (omega arith) (omega arith)
          ∙ read_piece results (length recv_buf - length (take k buf)) (drop k buf) first
              (omega arith) (omega arith) (omega arith)
          ∙ ap (λ m. read_loop results m (drop k buf ++ drop (length (drop k buf)) first))
              (let f : length recv_buf - length (take k buf) - length (drop k buf) ≡ 0 =
                  omega arith in
                f)
          ∙ read_done results (drop k buf ++ drop (length (drop k buf)) first),
    )

drop-get_elem? :
    (xs : List ℕ) (k y : ℕ) → get_elem? xs k ≡ some y → (ys : List ℕ) × (drop k xs ≡ y ∷ ys)
drop-get_elem? [] k y e = absurd (ground (arith, e))
drop-get_elem? (x ∷ xs) zero y e = (xs, ap (λ z. z ∷ xs) (some_nat x y e))
  where
    some_nat : (a b : ℕ) → some a ≡ some b → a ≡ b
    some_nat a b e = cc
drop-get_elem? (x ∷ xs) (suc k) y e = drop-get_elem? xs k y e

get_elem?-numbers : (n j k : ℕ) → k < n → get_elem? (numbers n j) k ≡ some (j + k)
get_elem?-numbers zero j k h = absurd (omega arith)
get_elem?-numbers (suc n) j zero h = ap some (let e : j ≡ j + 0 = omega arith in e)
get_elem?-numbers (suc n) j (suc k) h =
    get_elem?-numbers n (j + 1) k (omega arith)
    ∙ ap some (let e : j + 1 + k ≡ j + suc k = omega arith in e)

length-numbers : (n j : ℕ) → length (numbers n j) ≡ n
length-numbers zero j = refl
length-numbers (suc n) j = ap suc (length-numbers n (j + 1))

compare_differs :
    (n j y : ℕ) (ys : List ℕ) → j ≢ y → compare_loop (numbers (suc n) j) (y ∷ ys) ≡ some none
unfolding compare_loop
compare_differs n j y ys h = rw (compare_loop, (let e : (j == y) ≡ false = ground (arith, h) in e))

-- The buffer that `child_main` starts with.
abbrev pub first_buf : List ℕ
first_buf = numbers buf_size 0

module _ (k : ℕ) (low : 0 < k) (high : k < buf_size) (recv_buf : List ℕ)
    (sized : length recv_buf ≡ buf_size) where
  loop_split :
      (n : ℕ) (r : Exchange) (rounds : List Exchange) (ws : List Sent) (rs : List Received)
      (buf : List ℕ)
      → buf ≡ first_buf
      → r.writes ≡ sent (length buf) ∷ ws
      → r.reads ≡ received (take k buf) ∷ received (drop k buf) ∷ rs
      → child_loop (suc n) (r ∷ rounds) buf recv_buf ≡ some mismatch
  loop_split n r rounds ws rs buf e w g =
      let size : length buf ≡ buf_size =
        ap (λ (l : List ℕ). length l) e ∙ length-numbers buf_size 0 in
      let (out, run) = write_whole ws buf (omega arith) (omega arith) in
      let (rest, got) = read_two rs buf recv_buf k low (omega arith) (omega arith) (omega arith) in
      let (ys, cut) =
        drop-get_elem? buf k (0 + k)
          (ap (λ l. get_elem? l k) e ∙ get_elem?-numbers buf_size 0 k high) in
      round_differs n r rounds buf recv_buf out (drop k buf ++ rest)
        (ap (λ s. write_loop s (length buf) buf) w ∙ run)
        (ap (λ s. read_loop s (length recv_buf) recv_buf) g ∙ got)
        (ap (λ l. compare_loop buf (l ++ rest)) cut
          ∙ ap (λ b. compare_loop b ((0 + k) ∷ (ys ++ rest))) e
          ∙ compare_differs 255 0 (0 + k) (ys ++ rest) (λ z. omega arith))

-- If the server sends back exactly what it got, but the first answer arrives in two pieces, of which
-- the first has k bytes, at least one and not all, the client takes it for a wrong answer: the loop
-- ends with a byte that differs, and the program closes the socket and ends with code 0.
pub child_main_split :
    (k : ℕ) (sock : ℕ) (recv_buf : List ℕ) (r : Exchange) (rounds : List Exchange) (ws : List Sent)
    (rs : List Received)
    → 0 < k
    → k < buf_size
    → length recv_buf ≡ buf_size
    → r.writes ≡ sent buf_size ∷ ws
    → r.reads ≡ received (take k first_buf) ∷ received (drop k first_buf) ∷ rs
    → child_main (some sock) true recv_buf (r ∷ rounds) ≡ some (0, some mismatch, sock ∷ [])
unfolding child_main
child_main_split k sock recv_buf r rounds ws rs low high sized w g =
    rw (loop_split k low high recv_buf sized 9999 r rounds ws rs first_buf refl w g)
