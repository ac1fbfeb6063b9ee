-- ===== src/Codec/DecodeLoop.antt =====
-- The loop of `decode` undoes the escaping, up to the END, the end of the data or of the room.
use os_tasks.Prelude.{
  ne_zero, ℕ, zero, suc, ◌+◌, ◌-◌, ◌^◌, ◌≤◌, ◌<◌, ◌≡◌, ◌≢◌, ◌⊎◌, inl, inr, refl, sym, ap, ◌∙◌, Bool,
  true, false, not, some, List, [], ◌∷◌, ◌++◌, arith, is_nil, length, length-set, get_or, fill,
  reads, length-append, Bool-cases,
}
use mathlib.Core.Path.{subst, ap₂}
use os_tasks.BufIter.{BufIter, buf_iter_next}
use os_tasks.BufIter.Walk.{Walks}
use os_tasks.Codec.{Decoder, decode_body, decode_loop, end_byte, esc_byte}
use os_tasks.Codec.Emit.{fill-nil}
use os_tasks.Codec.Escape.{
  special, escape, escape_byte, escape_byte_pos, escape_plain, escape_special,
}
use os_tasks.Codec.DecodeRound.{
  Ready, decoded, decode_body_end, decode_body_plain, decode_body_escaped,
}

-- Where the loop stops after it has decoded all it can: at an END while there is room (`true`), or
-- for lack of data or room (`false`).
abbrev pub Stops : Bool → List ℕ → ℕ → Type 0
Stops true zs room = (rest : List ℕ) × (zs ≡ end_byte ∷ rest) × (0 < room)
Stops false zs room = (zs ≡ []) ⊎ (room ≡ 0)

-- How many bytes the END takes.
abbrev pub end_length : Bool → ℕ
end_length true = 1
end_length false = 0

-- The bytes `ys` were decoded to the places `qs`.
pub record Decoded (s : Decoder) (qs ys : List ℕ) (e : Bool) (s' : Decoder) : Type 0 where
  pub mem : s'.dst_mem ≡ fill s.dst_mem qs ys
  pub src_total : s'.src_total ≡ s.src_total + length (escape ys) + end_length e
  pub dst_total : s'.dst_total ≡ s.dst_total + length ys
  pub end_reached : s'.end_reached ≡ e

abbrev pub LoopDecodes : ℕ → List ℕ → Decoder → List ℕ → List ℕ → Bool → Type 0
LoopDecodes fuel src s qs ys e =
    (s' : Decoder) × (decode_loop fuel src s ≡ some s') × Decoded s qs ys e s'

module _ (fuel : ℕ) (src : List ℕ) (s s' : Decoder) where
  decode_loop_end : s.dst_rem ≡ 0 → decode_loop (suc fuel) src s ≡ some s
  unfolding decode_loop
  decode_loop_end e = ground arith

  decode_loop_stop :
      s.dst_rem ≢ 0 → decode_body src s ≡ some (false, s') → decode_loop (suc fuel) src s ≡ some s'
  unfolding decode_loop
  decode_loop_stop h e = rw (ne_zero s.dst_rem h, e)

  decode_loop_next :
      s.dst_rem ≢ 0
      → decode_body src s ≡ some (true, s')
      → decode_loop (suc fuel) src s ≡ decode_loop fuel src s'
  unfolding decode_loop
  decode_loop_next h e = rw (ne_zero s.dst_rem h, e)

-- All is decoded, and a place of the source is at hand.
loop_rest :
    (fuel m n : ℕ) (src : List ℕ) (s : Decoder) (p : ℕ) (ps qs zs : List ℕ) (e : Bool)
    → Ready m n src s (p ∷ ps) qs
    → s.end_reached ≡ false
    → reads 0 src (p ∷ ps) ≡ zs
    → Stops e zs s.dst_rem
    → LoopDecodes (suc fuel) src s qs [] e
unfolding reads escape
loop_rest fuel m n src s p ps qs zs true r f z (rest, w, h) = (
  record s { src_total = s.src_total + 1; end_reached = true },
  decode_loop_stop fuel src s _ (omega arith)
      (decode_body_end m n src s p ps r (ground (arith, z, w))),
  record {
    mem = sym (fill-nil s.dst_mem qs);
    src_total = omega arith;
    dst_total = omega arith;
    end_reached = refl;
  },
)
loop_rest fuel m n src s p ps qs zs false r f z (inl w) =
    absurd (omega (arith, ap (λ (l : List ℕ). length l) (z ∙ w)))
loop_rest fuel m n src s p ps qs zs false r f z (inr h) = (
  s,
  decode_loop_end fuel src s s h,
  record {
    mem = sym (fill-nil s.dst_mem qs);
    src_total = omega arith;
    dst_total = omega arith;
    end_reached = f;
  },
)

-- After a round in which `y` went to the place `q`.
Decoded-cons :
    (s s' : Decoder) (it : BufIter) (y q k : ℕ) (qs ys : List ℕ) (e : Bool)
    → s.dst_total + 1 ≤ 2 ^ 62
    → k ≡ s.src_total + length (escape_byte y)
    → Decoded (decoded s it q y k) qs ys e s'
    → Decoded s (q ∷ qs) (y ∷ ys) e s'
unfolding fill escape
Decoded-cons s s' it y q k qs ys e h l d = record {
  mem = d.mem;
  src_total = omega (arith, length-append (escape_byte y) (escape ys));
  dst_total = omega arith;
  end_reached = d.end_reached;
}

sum_nil : (k : ℕ) → k ≡ k + length (escape []) + 0
unfolding escape
sum_nil k = omega arith

-- The facts at the head of the loop, after a round that took `j` places of the source.
Ready-decoded :
    (m n : ℕ) (src : List ℕ) (s : Decoder) (is is' : List ℕ) (q : ℕ) (qs : List ℕ) (it : BufIter)
    (y j : ℕ)
    → Ready m n src s is (q ∷ qs)
    → Walks m (buf_iter_next it).1 is'
    → length is ≡ length is' + j
    → 0 < s.dst_rem
    → Ready m n src (decoded s it q y (s.src_total + j)) is' qs
Ready-decoded m n src s is is' q qs it y j r w l h = record {
  reading = w;
  src_in = r.src_in;
  writing = r.writing.3;
  dst_in = omega (arith, length-set s.dst_mem q y);
  room = omega arith;
  dst_small = omega arith;
  src_small = omega arith;
}

-- Nothing is left to decode where the source ends.
source_ends :
    (ys zs : List ℕ) (room : ℕ) (e : Bool)
    → [] ≡ escape ys ++ zs
    → Stops e zs room
    → (ys ≡ []) × (e ≡ false)
unfolding escape
source_ends [] zs room true z (rest, w, h) =
    absurd (omega (arith, ap (λ (l : List ℕ). length l) (z ∙ w)))
source_ends [] zs room false z h = (refl, refl)
source_ends (y ∷ ys) zs room e z h = absurd (
    omega (
      arith,
      ap (λ (l : List ℕ). length l) z,
      length-append (escape_byte y ++ escape ys) zs,
      length-append (escape_byte y) (escape ys),
      escape_byte_pos y,
    ))

module _ (fuel m n : ℕ) (src : List ℕ) (s : Decoder) (y q : ℕ) (qs ys zs : List ℕ) (e : Bool)
    (ih : (s' : Decoder) (is' : List ℕ)
      → Ready m n src s' is' qs
      → s'.end_reached ≡ false
      → reads 0 src is' ≡ escape ys ++ zs
      → length ys ≤ s'.dst_rem
      → Stops e zs (s'.dst_rem - length ys)
      → s'.dst_rem < fuel
      → 0 < length is'
      → LoopDecodes fuel src s' qs ys e)
    (fresh : s.end_reached ≡ false) (enough : s.dst_rem < suc fuel)
    (small : s.dst_total + s.dst_rem ≤ 2 ^ 62) (fits_in : suc (length ys) ≤ s.dst_rem)
    (stops : Stops e zs (s.dst_rem - suc (length ys))) where
  after_round :
      (it : BufIter) (k : ℕ) (ps : List ℕ)
      → decode_body src s ≡ some (not (is_nil ps), decoded s it q y k)
      → Ready m n src (decoded s it q y k) ps qs
      → k ≡ s.src_total + length (escape_byte y)
      → reads 0 src ps ≡ escape ys ++ zs
      → LoopDecodes (suc fuel) src s (q ∷ qs) (y ∷ ys) e
  unfolding reads
  after_round it k [] b r t z =
      let (no_more, no_end) = source_ends ys zs (s.dst_rem - suc (length ys)) e z stops in
      let s' = decoded s it q y k in
      (
        s',
        decode_loop_stop fuel src s s' (omega arith) b,
        Decoded-cons s s' it y q k qs ys e (omega arith) t (
            rw (no_more, no_end)
              (record {
                mem = sym (fill-nil s'.dst_mem qs);
                src_total = sum_nil k;
                dst_total = omega arith;
                end_reached = fresh;
              })),
      )
  after_round it k (p ∷ ps) b r t z =
      let s' = decoded s it q y k in
      let (s'', e', d) =
        ih s' (p ∷ ps) r fresh z (omega arith) (subst (Stops e zs) (omega arith) stops)
          (omega arith) (omega arith) in
      (
        s'',
        decode_loop_next fuel src s s' (omega arith) b ∙ e',
        Decoded-cons s s'' it y q k qs ys e (omega arith) t d,
      )

  plain_round :
      (is : List ℕ)
      → Ready m n src s is (q ∷ qs)
      → special y ≡ false
      → reads 0 src is ≡ y ∷ (escape ys ++ zs)
      → LoopDecodes (suc fuel) src s (q ∷ qs) (y ∷ ys) e
  unfolding reads
  plain_round [] r pl z = absurd (omega (arith, ap (λ (l : List ℕ). length l) z))
  plain_round (p ∷ ps) r pl z =
      let first : get_or src p 0 ≡ y = cc in
      after_round s.src_it (s.src_total + 1) ps
        (decode_body_plain m n src s p ps q qs r (rw first pl)
          ∙ ap₂ (λ (b t : ℕ). some (not (is_nil ps), decoded s s.src_it q b t)) first (omega arith))
        (Ready-decoded m n src s (p ∷ ps) ps q qs s.src_it y 1 r r.reading.3 (omega arith)
          (omega arith))
        (omega (arith, ap (λ (l : List ℕ). length l) (escape_plain y pl))) (cc)

  special_round :
      (is : List ℕ)
      → Ready m n src s is (q ∷ qs)
      → special y ≡ true
      → reads 0 src is ≡ esc_byte ∷ y ∷ (escape ys ++ zs)
      → LoopDecodes (suc fuel) src s (q ∷ qs) (y ∷ ys) e
  unfolding reads
  special_round [] r sp z = absurd (omega (arith, ap (λ (l : List ℕ). length l) z))
  special_round (p ∷ []) r sp z = absurd (omega (arith, ap (λ (l : List ℕ). length l) z))
  special_round (p ∷ p' ∷ ps) r sp z =
      let first : get_or src p 0 ≡ esc_byte = cc in
      let second : get_or src p' 0 ≡ y = cc in
      let it = (buf_iter_next s.src_it).1 in
      after_round it (s.src_total + 2) ps
        (decode_body_escaped m n src s p p' ps q qs r first
          ∙ ap₂ (λ (b t : ℕ). some (not (is_nil ps), decoded s it q b t)) second (omega arith))
        (Ready-decoded m n src s (p ∷ p' ∷ ps) ps q qs it y 2 r r.reading.3.3 (omega arith)
          (omega arith))
        (omega (arith, ap (λ (l : List ℕ). length l) (escape_special y sp))) (cc)

-- From a state that is ready, on a source that begins with the escaped form of `ys`, the loop
-- decodes `ys`, if the source or the room ends there or an END follows.
pub decode_loop_lem :
    (fuel m n : ℕ) (src : List ℕ) (qs ys zs : List ℕ) (e : Bool) (s : Decoder) (is : List ℕ)
    → Ready m n src s is qs
    → s.end_reached ≡ false
    → reads 0 src is ≡ escape ys ++ zs
    → length ys ≤ s.dst_rem
    → Stops e zs (s.dst_rem - length ys)
    → s.dst_rem < fuel
    → 0 < length is
    → LoopDecodes fuel src s qs ys e
unfolding reads escape
decode_loop_lem zero m n src qs ys zs e s is r f z l st h k = absurd (omega arith)
decode_loop_lem (suc fuel) m n src qs [] zs e s [] r f z l st h k = absurd (omega arith)
decode_loop_lem (suc fuel) m n src qs [] zs e s (p ∷ ps) r f z l st h k =
    loop_rest fuel m n src s p ps qs zs e r f z (subst (Stops e zs) (omega arith) st)
decode_loop_lem (suc fuel) m n src [] (y ∷ ys) zs e s is r f z l st h k = absurd (omega arith)
decode_loop_lem (suc fuel) m n src (q ∷ qs) (y ∷ ys) zs e s is r f z l st h k =
    elim (Bool-cases (special y)) [
      | inl sp ↦
          special_round fuel m n src s y q qs ys zs e (decode_loop_lem fuel m n src qs ys zs e) f h
            r.dst_small l st is r sp (rw (escape_special y sp) at z)
      | inr pl ↦
          plain_round fuel m n src s y q qs ys zs e (decode_loop_lem fuel m n src qs ys zs e) f h
            r.dst_small l st is r pl (rw (escape_plain y pl) at z)
    ]
