-- ===== src/ReadLine/Tests.antt =====
-- Runs of the line reader.
use os_tasks.Prelude.{
  ℕ, ◌≡◌, refl, arith, some, true, false, List, [], ◌∷◌, ◌++◌, ◌⊎◌, inl, inr, reads, span, pos,
}
use os_tasks.RoundBuffer.{received}
use os_tasks.ReadLine.{Buffer, File, Round, ready, line, read_line}
use os_tasks.ReadLine.Collect.{collect}
use os_tasks.ReadLine.Supply.{Delivers, IsGood}
use os_tasks.ReadLine.Whole.{read_line_lem}
use os_tasks.ReadLine.Consume.{waiting}

-- 7, a line break and 8.
abbrev buffer : Buffer
buffer = record { buf = 1 ∷ 7 ∷ 10 ∷ 8 ∷ []; cap = 4; pos = 1; len = 3 }

abbrev source : File
source = record { fd = pos 0; buf = record { buf = 9 ∷ 9 ∷ []; cap = 2; pos = 0; len = 0 } }

abbrev arrives : List ℕ → Round
arrives xs = record { selected = ready true false; bytes = received xs }

-- The line 7, 8 and a line break arrives in two pieces, with 9 behind it.
abbrev pieces : List Round
pieces = arrives (7 ∷ 8 ∷ []) ∷ arrives (10 ∷ 9 ∷ []) ∷ arrives [] ∷ []

abbrev behind : List ℕ
behind = 9 ∷ []

read_line_example :
    (rounds' : List Round) × (b' : Buffer) × (zs : List ℕ) × (read_line true pieces source 9
      ≡ some (line (7 ∷ 8 ∷ 10 ∷ []), rounds', record source { buf = b' }))
    × (behind ≡ waiting b' ++ zs)
    × IsGood 2 b'
    × (Delivers true 2 rounds' zs ⊎ (behind ≡ []))
unfolding collect reads span
read_line_example =
    read_line_lem true 2 pieces source 9 (7 ∷ 8 ∷ 10 ∷ 9 ∷ []) (λ e. omega arith) (omega arith)
      (
        (λ t. refl),
        inr (
          7,
          8 ∷ [],
          10 ∷ 9 ∷ [],
          refl,
          omega arith,
          refl,
          (
            (λ t. refl),
            inr (10, 9 ∷ [], [], refl, omega arith, refl, ((λ t. refl), inl (refl, refl))),
          ),
        ),
      )
