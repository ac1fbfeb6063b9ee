-- ===== src/PipeMessage/Passing.antt =====
-- What comes out behind the pipe.
use os_tasks.Prelude.{
  ℕ, zero, suc, ◌≤◌, ◌<◌, ◌≡◌, refl, ap, ◌∙◌, arith, Bool, true, false, Option, some, ◌>>=◌, List,
  [], ◌∷◌, ◌++◌, map, ◌==◌, length, take, drop, replicate, length-take,
}
use os_tasks.RoundBuffer.{received, sent, write_failed, Errno}
use os_tasks.UnixSocket.{try_again, message, line_break}
use os_tasks.PipeMessage.{
  msg_size, text_of, print_upper_case, hello, write_message, writer_main, read_message, reader_main,
}

-- No 0 is in the text.
abbrev pub IsText : List ℕ → Type 0
IsText [] = Unit
IsText (x ∷ xs) = ((x == 0) ≡ false) × IsText xs

abbrev starts_with_zero : List ℕ → Bool
starts_with_zero [] = false
starts_with_zero (x ∷ xs) = x == 0

text_of-zero : (msg : List ℕ) → starts_with_zero msg ≡ true → text_of msg ≡ some []
text_of-zero [] e = absurd (cc)
text_of-zero (x ∷ msg) e = rw e refl

-- A beginning of a text with its zeros, in front of more zeros, holds that much of the text.
text_of-take :
    (text zeros more : List ℕ) (k : ℕ)
    → IsText text
    → starts_with_zero zeros ≡ true
    → (k ≤ length text → starts_with_zero more ≡ true)
    → text_of (take k (text ++ zeros) ++ more) ≡ some (take k text)
text_of-take text zeros more zero t z m = text_of-zero more (m (omega arith))
text_of-take [] [] more (suc k) t z m = absurd (cc)
text_of-take [] (x ∷ zeros) more (suc k) t z m = rw z refl
text_of-take (x ∷ text) zeros more (suc k) (x_text, t) z m =
    rw (x_text, text_of-take text zeros more k t z (λ h. m (omega arith))) refl

zeros_left : (n m : ℕ) → n < m → starts_with_zero (drop n (replicate m 0)) ≡ true
zeros_left n zero h = absurd (omega arith)
zeros_left zero (suc m) h = refl
zeros_left (suc n) (suc m) h = zeros_left n m (omega arith)

message-IsText : IsText message
message-IsText = (
  refl,
  (
    refl,
    (
      refl,
      (
        refl,
        (refl, (refl, (refl, (refl, (refl, (refl, (refl, (refl, (refl, (refl, (refl, tt))))))))))),
      ),
    ),
  ),
)

take-take : (n k : ℕ) (xs : List ℕ) → k ≤ n → take k (take n xs) ≡ take k xs
take-take n zero xs h = refl
take-take zero (suc k) xs h = absurd (omega arith)
take-take (suc n) (suc k) [] h = refl
take-take (suc n) (suc k) (x ∷ xs) h = ap (λ l. x ∷ l) (take-take n k xs (omega arith))

prints :
    (toupper : ℕ → ℕ) (msg text : List ℕ)
    → text_of msg ≡ some text
    → print_upper_case toupper msg ≡ some (map toupper text ++ (line_break ∷ []))
unfolding print_upper_case
prints toupper msg text e = rw e refl

-- If `write` takes the first `n` bytes, at most MSG_SIZE, and `read` gives the first `k` of those: both
-- processes end with 0, and what is printed is the text in upper case, as far as it is among these
-- `k` bytes, and a line break.
pub reader_main-writer_main :
    (toupper : ℕ → ℕ) (n k : ℕ)
    → n ≤ msg_size
    → k ≤ n
    → ((writer_main (sent n)).0 ≡ 0)
      × (reader_main toupper (received (take k (writer_main (sent n)).1))
          ≡ some (0, map toupper (take k message) ++ (line_break ∷ [])))
unfolding writer_main reader_main write_message read_message
reader_main-writer_main toupper n k h l =
    let zeros : List ℕ = replicate msg_size 0 in
    let arrived = take k hello in
    let size : length arrived ≡ k = length-take k hello ∙ (omega arith) in
    let text =
      text_of-take message (replicate 17 0) (drop (length arrived) zeros) k message-IsText refl
        (λ m. zeros_left (length arrived) msg_size (omega arith)) in
    (
      refl,
      ap
            (λ got. print_upper_case toupper (got ++ drop (length got) zeros) >>= λ printed.
              some (0, printed))
            (take-take n k hello l)
          ∙ ap (λ (o : Option (List ℕ)). o >>= λ printed. some (0, printed))
              (prints toupper (arrived ++ drop (length arrived) zeros) (take k message) text),
    )

-- A writer that is interrupted before it has written anything does not write again: it ends with 0, as
-- if it had, and the reader prints an empty line.
pub writer_main_interrupted :
    (toupper : ℕ → ℕ) (err : Errno)
    → try_again err ≡ true
    → ((writer_main (write_failed err)).0 ≡ 0)
      × (reader_main toupper (received (writer_main (write_failed err)).1)
          ≡ some (0, line_break ∷ []))
unfolding writer_main reader_main write_message read_message
writer_main_interrupted toupper err e =
    let zeros : List ℕ = replicate msg_size 0 in
    (
      rw e refl,
      ap (λ (o : Option (List ℕ)). o >>= λ printed. some (0, printed))
          (prints toupper zeros [] (text_of-zero zeros refl)),
    )
