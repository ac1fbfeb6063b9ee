-- ===== src/TextMemory/Chain.antt =====
-- The list holds the lines in the order in which they were typed.
use os_tasks.Prelude.{
  ℕ, zero, suc, ◌+◌, ◌<◌, ◌≡◌, refl, sym, ap, ◌∙◌, true, false, Option, none, some, ◌>>=◌, List, [],
  ◌∷◌, ◌++◌, arith, length, drop, set, get_elem?, store, store-eq-set, length-append, concat,
  append_assoc, append-nil,
}
use mathlib.Core.Path.{subst}
use os_tasks.Prelude.Updates.{get_elem?-drop, drop_next}
use os_tasks.TextMemory.{
  TextNode, text_node, Lines, no_lines, read_text, link, add_text, Typed, starts_with_dot,
  read_loop, print_texts, free_texts, text_main,
}

-- The nodes of the lines from the address `k` on, each pointing to the next.
abbrev pub chain : (k : ℕ) → List (List ℕ) → List TextNode
chain k [] = []
chain k (x ∷ []) = text_node none x ∷ []
chain k (x ∷ y ∷ ys) = text_node (some (suc k)) x ∷ chain (suc k) (y ∷ ys)

length-chain : (k : ℕ) (xs : List (List ℕ)) → length (chain k xs) ≡ length xs
length-chain k [] = refl
length-chain k (x ∷ []) = refl
length-chain k (x ∷ y ∷ ys) = ap suc (length-chain (suc k) (y ∷ ys))

abbrev last_of : List ℕ → List (List ℕ) → List ℕ
last_of x [] = x
last_of x (y ∷ ys) = last_of y ys

get_elem?-chain :
    (k : ℕ) (x : List ℕ) (xs : List (List ℕ)) (more : List TextNode)
    → get_elem? (chain k (x ∷ xs) ++ more) (length xs) ≡ some (text_node none (last_of x xs))
get_elem?-chain k x [] more = refl
get_elem?-chain k x (y ∷ ys) more = get_elem?-chain (suc k) y ys more

-- Linking a new node to the last one makes the longer chain.
set-chain :
    (k m : ℕ) (x : List ℕ) (xs : List (List ℕ)) (line : List ℕ)
    → m ≡ k + suc (length xs)
    → set
        (chain k (x ∷ xs) ++ (text_node none line ∷ []))
        (length xs)
        (text_node (some m) (last_of x xs))
      ≡ chain k (x ∷ (xs ++ (line ∷ [])))
set-chain k m x [] line e =
    ap (λ n. text_node (some n) x ∷ text_node none line ∷ []) (let f : m ≡ suc k = omega arith in f)
set-chain k m x (y ∷ ys) line e =
    ap (λ l. text_node (some (suc k)) x ∷ l) (set-chain (suc k) m y ys line (omega arith))

-- The list holds the lines.
abbrev pub Holds : Lines → List (List ℕ) → Type 0
Holds s [] = s ≡ no_lines
Holds s (x ∷ xs) = s ≡ record { head = some 0; last = some (length xs); heap = chain 0 (x ∷ xs) }

link_lem :
    (x : List ℕ) (xs : List (List ℕ)) (line : List ℕ) (m : ℕ)
    → link (some (length xs)) m (chain 0 (x ∷ xs) ++ (text_node none line ∷ []))
      ≡ some (
          set
            (chain 0 (x ∷ xs) ++ (text_node none line ∷ []))
            (length xs)
            (text_node (some m) (last_of x xs)))
unfolding link
link_lem x xs line m =
    let heap = chain 0 (x ∷ xs) ++ (text_node none line ∷ []) in
    let n = length-append (chain 0 (x ∷ xs)) (text_node none line ∷ []) in
    let l = length-chain 0 (x ∷ xs) in
    ap (λ found. found >>= λ n. store heap (length xs) (record n { next = some m }))
      (get_elem?-chain 0 x xs (text_node none line ∷ []))
    ∙ store-eq-set heap (length xs) (text_node (some m) (last_of x xs)) (omega arith)

add_text_lem :
    (line : List ℕ) (s : Lines) (ls : List (List ℕ))
    → Holds s ls
    → (s' : Lines) × (add_text true true line s ≡ some (true, s')) × Holds s' (ls ++ (line ∷ []))
unfolding add_text
add_text_lem line s [] e =
    (record { head = some 0; last = some 0; heap = chain 0 (line ∷ []) }, rw e refl, refl)
add_text_lem line s (x ∷ xs) e =
    let m = length (chain 0 (x ∷ xs)) in
    let n : m ≡ suc (length xs) = length-chain 0 (x ∷ xs) in
    let after : length (xs ++ (line ∷ [])) ≡ m = length-append xs (line ∷ []) ∙ (omega arith) in
    (
      record { head = some 0; last = some m; heap = chain 0 (x ∷ (xs ++ (line ∷ []))) },
      rw e (
          ap (λ h. h >>= λ heap. some (true, record { head = some 0; last = some m; heap = heap }))
            (link_lem x xs line m)
          ∙ ap (λ heap. some (true, record { head = some 0; last = some m; heap = heap }))
              (set-chain 0 m x xs line (omega arith))),
      rw after refl,
    )

-- The records in `typed` are the lines, each of them kept, and then the end of the input.
pub data Types : (typed : List Typed) (ls : List (List ℕ)) → Type 0 where
  ends :
      {t : Typed} {typed : List Typed}
      → starts_with_dot (read_text t.fgets) ≡ true
      → Types (t ∷ typed) []
  keeps :
      {line : List ℕ} {typed : List Typed} {ls : List (List ℕ)}
      → starts_with_dot line ≡ false
      → Types typed ls
      → Types (record { fgets = some line; copied = true; allocated = true } ∷ typed) (line ∷ ls)

read_loop_lem :
    {typed : List Typed} {ls : List (List ℕ)}
    → Types typed ls
    → (s : Lines) (before : List (List ℕ)) → Holds s before
    → (s' : Lines) × (read_loop typed s ≡ some (true, s')) × Holds s' (before ++ ls)
unfolding read_loop read_text
read_loop_lem (ends e) s before h =
    (s, rw (read_loop, e) refl, subst (λ l. Holds s l) (sym (append-nil before)) h)
read_loop_lem (keeps {line} {typed} {ls} e more) s before h =
    let (s1, run1, h1) = add_text_lem line s before h in
    let (s2, run2, h2) = read_loop_lem more s1 (before ++ (line ∷ [])) h1 in
    (
      s2,
      rw (read_loop, e, run1) run2,
      subst (λ l. Holds s2 l) (append_assoc before (line ∷ []) ls) h2,
    )

-- The address of the first of the nodes.
abbrev first_of : (k : ℕ) → List (List ℕ) → Option ℕ
first_of k [] = none
first_of k (x ∷ xs) = some k

-- The addresses from `k` on, the last one first.
abbrev pub down : (k n : ℕ) → List ℕ
down k zero = []
down k (suc n) = down (suc k) n ++ (k ∷ [])

chain_next :
    (k : ℕ) (x : List ℕ) (xs : List (List ℕ))
    → (chain k (x ∷ xs)) ≡ text_node (first_of (suc k) xs) x ∷ chain (suc k) xs
chain_next k x [] = refl
chain_next k x (y ∷ ys) = refl

-- On fuel above the number of nodes, both walks reach the end.
walks :
    (heap : List TextNode) (k : ℕ) (ls : List (List ℕ)) (fuel : ℕ)
    → drop k heap ≡ chain k ls
    → length ls < fuel
    → (print_texts fuel heap (first_of k ls) ≡ some (concat ls))
      × (free_texts fuel heap (first_of k ls) ≡ some (down k (length ls)))
unfolding print_texts free_texts
walks heap k ls zero e h = absurd (omega arith)
walks heap k [] (suc fuel) e h = (refl, refl)
walks heap k (x ∷ xs) (suc fuel) e h =
    let here = e ∙ chain_next k x xs in
    let found = get_elem?-drop heap k (text_node (first_of (suc k) xs) x) (chain (suc k) xs) here in
    let next = drop_next heap k (text_node (first_of (suc k) xs) x) (chain (suc k) xs) here in
    let at : k + 1 ≡ suc k = omega arith in
    let (printed, freed) =
      walks heap (suc k) xs fuel (sym (ap (λ i. drop i heap) at) ∙ next) (omega arith) in
    (rw (print_texts, found, printed) refl, rw (free_texts, found, freed) refl)

ended :
    (s : Lines) (ls : List (List ℕ))
    → Holds s ls
    → (print_texts (suc (length s.heap)) s.heap s.head ≡ some (concat ls))
      × (free_texts (suc (length s.heap)) s.heap s.head ≡ some (down 0 (length ls)))
ended s [] e = rw e (walks [] 0 [] 1 refl (omega arith))
ended s (x ∷ xs) e =
    let n = length-chain 0 (x ∷ xs) in
    rw e (walks (chain 0 (x ∷ xs)) 0 (x ∷ xs) (suc (length (chain 0 (x ∷ xs)))) refl (omega arith))

-- On lines that do not begin with a dot, each given memory, and then the end of the input or a line
-- that begins with a dot, `main` prints the lines in order and frees each node once, the last first.
pub text_main_lem :
    {typed : List Typed} {ls : List (List ℕ)}
    → Types typed ls
    → text_main typed ≡ some (concat ls, down 0 (length ls))
unfolding text_main
text_main_lem {typed} {ls} t =
    let (s, run, h) = read_loop_lem t no_lines [] refl in
    let (printed, freed) = ended s ls h in rw (run, printed, freed) refl
