-- ===== src/Codec/EncodeLoop.antt =====
-- The loop of `encode` puts the escaped form of as many bytes as fit.
use os_tasks.Prelude.{
  ne_zero, ℕ, zero, suc, ◌-◌, ◌≤◌, ◌<◌, ◌≡◌, sym, ap, ◌∙◌, true, false, not, some, List, [], ◌∷◌,
  append-nil, arith, is_nil, length, length-drop, ◌≢◌, take, drop, get_or, reads, length-fill,
}
use native.Mathlib.Decide.{dec_lt, ℕ_discrete}
use os_tasks.BufIter.Walk.{Walks}
use os_tasks.Codec.{Encoder, encode_body, encode_loop}
use os_tasks.Codec.Escape.{
  escape_byte, escape, fits, fits_stop, fits_next, fits-zero, escape_byte_pos, fits-nil,
}
use os_tasks.Codec.Emit.{fill-nil}
use os_tasks.Codec.EncodeRound.{
  Emitted, Emitted-append, Ready, Round, encode_body_stop, encode_body_next,
}

pub Emitted-none : (n : ℕ) (s : Encoder) (qs : List ℕ) → Walks n s.dst_it qs → Emitted n s qs [] 0 s
Emitted-none n s qs w = record {
  mem = sym (fill-nil s.dst_mem qs);
  walks = w;
  src_total = omega arith;
  dst_total = omega arith;
}

pub Ready-next :
    (m n : ℕ) (src : List ℕ) (s s' : Encoder) (p p' : ℕ) (ps qs : List ℕ)
    → Ready m n src s p (p' ∷ ps) qs
    → length (escape_byte (get_or src p 0)) ≤ s.dst_rem
    → Round n src s p qs s'
    → Ready m n src s' p' ps (drop (length (escape_byte (get_or src p 0))) qs)
Ready-next m n src s s' p p' ps qs r h t = record {
  reading = rw t.advanced r.reading.3;
  src_in = r.src_in;
  writing = t.emitted.walks;
  dst_in =
      rw t.emitted.mem (omega (arith, length-fill s.dst_mem qs (escape_byte (get_or src p 0))));
  room = omega (arith, length-drop (length (escape_byte (get_or src p 0))) qs);
  small = omega arith;
  totals = omega (arith, escape_byte_pos (get_or src p 0));
}

module _ (fuel : ℕ) (src : List ℕ) (s s' : Encoder) where
  encode_loop_end : s.dst_rem ≡ 0 → encode_loop (suc fuel) src s ≡ some s
  unfolding encode_loop
  encode_loop_end e = ground arith

  encode_loop_stop :
      s.dst_rem ≢ 0 → encode_body src s ≡ some (false, s') → encode_loop (suc fuel) src s ≡ some s'
  unfolding encode_loop
  encode_loop_stop h e = rw (ne_zero s.dst_rem h, e)

  encode_loop_next :
      s.dst_rem ≢ 0
      → encode_body src s ≡ some (true, s')
      → encode_loop (suc fuel) src s ≡ encode_loop fuel src s'
  unfolding encode_loop
  encode_loop_next h e = rw (ne_zero s.dst_rem h, e)

-- The loop puts the escaped form of as many of the bytes `xs` as fit.
abbrev pub LoopPuts : ℕ → ℕ → List ℕ → Encoder → List ℕ → List ℕ → Type 0
LoopPuts fuel n src s xs qs =
    (s' : Encoder) × (encode_loop fuel src s ≡ some s')
    × Emitted n s qs (escape (take (fits s.dst_rem xs) xs)) (fits s.dst_rem xs) s'

pub LoopPuts-next :
    (fuel m n : ℕ) (src : List ℕ) (s s' : Encoder) (p : ℕ) (ps qs : List ℕ)
    → ((s' : Encoder) (p' : ℕ) (ps' qs' : List ℕ)
        → Ready m n src s' p' ps' qs'
        → s'.dst_rem < fuel
        → LoopPuts fuel n src s' (reads 0 src (p' ∷ ps')) qs')
    → Ready m n src s p ps qs
    → encode_body src s ≡ some (not (is_nil ps), s')
    → Round n src s p qs s'
    → s.dst_rem ≢ 0
    → s.dst_rem < suc fuel
    → length (escape_byte (get_or src p 0)) ≤ s.dst_rem
    → LoopPuts (suc fuel) n src s (reads 0 src (p ∷ ps)) qs
unfolding reads escape
LoopPuts-next fuel m n src s s' p [] qs ih r e t ne h l =
    rw
      (
        fits_next s.dst_rem (get_or src p 0) [] l,
        fits-nil (s.dst_rem - length (escape_byte (get_or src p 0))),
        append-nil (escape_byte (get_or src p 0)),
      )
      (s', encode_loop_stop fuel src s s' ne e, t.emitted)
LoopPuts-next fuel m n src s s' p (p' ∷ ps) qs ih r e t ne h l =
    let byte : ℕ = get_or src p 0 in
    let (s'', e', t') =
      ih s' p' ps (drop (length (escape_byte byte)) qs) (Ready-next m n src s s' p p' ps qs r l t)
        (omega (arith, escape_byte_pos byte)) in
    rw (fits_next s.dst_rem byte (reads 0 src (p' ∷ ps)) l, ← t.rest)
      (
        s'',
        encode_loop_next fuel src s s' ne e ∙ e',
        Emitted-append n s s' s'' qs (escape_byte byte)
            (escape (take (fits s'.dst_rem (reads 0 src (p' ∷ ps))) (reads 0 src (p' ∷ ps))))
            (fits s'.dst_rem (reads 0 src (p' ∷ ps))) t.emitted t',
      )

pub encode_loop_lem :
    (fuel m n : ℕ) (src : List ℕ) (s : Encoder) (p : ℕ) (ps qs : List ℕ)
    → Ready m n src s p ps qs
    → s.dst_rem < fuel
    → LoopPuts fuel n src s (reads 0 src (p ∷ ps)) qs
unfolding reads escape
encode_loop_lem zero m n src s p ps qs r h = absurd (omega arith)
encode_loop_lem (suc fuel) m n src s p ps qs r h = elim (ℕ_discrete s.dst_rem 0) [
  | yes e ↦
      rw (ap (λ k. fits k (byte ∷ reads 0 src ps)) e ∙ fits-zero (byte ∷ reads 0 src ps))
        (s, encode_loop_end fuel src s s e, Emitted-none n s qs r.writing)
  | no ne ↦ elim (dec_lt s.dst_rem (length (escape_byte byte))) [
    | yes l ↦ rw (fits_stop s.dst_rem byte (reads 0 src ps) l) (
      s,
      encode_loop_stop fuel src s s ne (encode_body_stop m n src s p ps qs r (omega arith) l),
      Emitted-none n s qs r.writing,
    )
    | no l ↦
        let (s', e, t) = encode_body_next m n src s p ps qs r (omega arith) (omega arith) in
        LoopPuts-next fuel m n src s s' p ps qs (encode_loop_lem fuel m n src) r e t ne h
          (omega arith)
  ]
]
  where
    byte : ℕ
    byte = get_or src p 0
