-- ===== src/UnixSocket/Serving.antt =====
-- The server writes what it reads in upper case.
use os_tasks.Prelude.{
  ℕ, ◌≡◌, refl, sym, ap, ◌∙◌, true, some, List, [], ◌∷◌, ◌++◌, map, arith, length, length-map,
  append_assoc,
}
use os_tasks.RoundBuffer.{Received, received, read_failed, Sent, sent}
use os_tasks.UnixSocket.{
  try_again, write_all, close, unlink, to_upper_case, serve_loop, ServerCalls, server_main,
  sock_path, line_break,
}
use os_tasks.UnixSocket.Writing.{write_all_whole}

-- The reads deliver `text` in pieces and then its end, with failures between them that are tried
-- again; each piece is written by one call of `write`, and so is the line break at the end.
abbrev pub Delivers : List Received → List Sent → (text : List ℕ) → Type 0
Delivers [] writes text = ⊥
Delivers (read_failed err ∷ reads) writes text = (try_again err ≡ true) × Delivers reads writes text
Delivers (received [] ∷ reads) writes text =
    (text ≡ []) × ((more : List Sent) × (writes ≡ sent 1 ∷ more))
Delivers (received (x ∷ xs) ∷ reads) writes text =
    (rest : List ℕ) × (text ≡ (x ∷ xs) ++ rest)
    × ((more : List Sent) × (writes ≡ sent (length (x ∷ xs)) ∷ more) × Delivers reads more rest)

module _ (toupper : ℕ → ℕ) where
  map-append_bytes : (xs ys : List ℕ) → map toupper (xs ++ ys) ≡ map toupper xs ++ map toupper ys
  map-append_bytes [] ys = refl
  map-append_bytes (x ∷ xs) ys = ap (λ l. toupper x ∷ l) (map-append_bytes xs ys)

  write_piece :
      (x : ℕ) (xs : List ℕ) (more : List Sent)
      → write_all (sent (length (x ∷ xs)) ∷ more) (to_upper_case toupper (x ∷ xs))
        ≡ some (record { ok = true; out = map toupper (x ∷ xs); left = more })
  unfolding to_upper_case
  write_piece x xs more =
      ap (λ n. write_all (sent n ∷ more) (map toupper (x ∷ xs))) (sym (length-map (x ∷ xs) toupper))
      ∙ write_all_whole (map toupper (x ∷ xs)) more (omega arith)

  serve_loop_lem :
      (reads : List Received) (writes : List Sent) (text : List ℕ)
      → Delivers reads writes text
      → serve_loop toupper reads writes ≡ some (map toupper text ++ (line_break ∷ []))
  unfolding serve_loop
  serve_loop_lem [] writes text h = absurd h
  serve_loop_lem (read_failed err ∷ reads) writes text (again, h) =
      rw (serve_loop, again) (serve_loop_lem reads writes text h)
  serve_loop_lem (received [] ∷ reads) writes text (e, (more, f)) = rw (e, f) refl
  serve_loop_lem (received (x ∷ xs) ∷ reads) writes text (rest, e, (more, f, h)) =
      rw (e, f, serve_loop, write_piece x xs more, serve_loop_lem reads more rest h)
        (ap some (
          sym (append_assoc (map toupper (x ∷ xs)) (map toupper rest) (line_break ∷ []))
          ∙ ap (λ l. l ++ (line_break ∷ [])) (sym (map-append_bytes (x ∷ xs) rest))))

-- If the server gets its socket and a client, the reads deliver a text in any pieces, with failures
-- between them that are tried again, and each write takes all that it is given, the server ends with
-- code 0, has written the whole text in upper case and a line break, and closes both sockets and
-- removes the path.
pub server_main_lem :
    (toupper : ℕ → ℕ) (env : ServerCalls) (listener client : ℕ) (text : List ℕ)
    → env.socket ≡ some listener
    → env.bound ≡ true
    → env.listening ≡ true
    → env.accepted ≡ some client
    → Delivers env.reads env.writes text
    → server_main toupper env
      ≡ some (
        0,
        map toupper text ++ (line_break ∷ []),
        close client ∷ close listener ∷ unlink sock_path ∷ [],
      )
unfolding server_main
server_main_lem toupper env listener client text e f g h d =
    rw (e, f, g, h, serve_loop_lem toupper env.reads env.writes text d)
