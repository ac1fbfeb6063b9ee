-- ===== src/Codec/DecodeRound.antt =====
-- One round of the loop of `decode`.
use os_tasks.Prelude.{
  ℕ, ◌+◌, ◌^◌, ◌≤◌, ◌≡◌, ap, true, false, not, some, List, ◌∷◌, arith, ◌==◌, is_nil, length, set,
  get_or, get_elem?, get_elem?-eq-get_or, add_size, sub_size,
}
use os_tasks.BufIter.{BufIter, buf_iter_next}
use os_tasks.BufIter.Walk.{Walks}
use os_tasks.Codec.{Decoder, decode_body, end_byte, esc_byte}
use os_tasks.Codec.Emit.{emit_lem}
use os_tasks.Codec.Escape.{special}

-- The facts that hold at the head of the loop of `decode`.
pub record Ready (m n : ℕ) (src : List ℕ) (s : Decoder) (is qs : List ℕ) : Type 0 where
  pub reading : Walks m s.src_it is
  pub src_in : m ≤ length src
  pub writing : Walks n s.dst_it qs
  pub dst_in : n ≤ length s.dst_mem
  pub room : s.dst_rem ≤ length qs
  pub dst_small : s.dst_total + s.dst_rem ≤ 2 ^ 62
  pub src_small : s.src_total + length is ≤ 2 ^ 62

-- The state after the byte `b`, read last through the iterator `it`, went to the place `q`.
abbrev pub decoded : Decoder → BufIter → ℕ → ℕ → ℕ → Decoder
decoded s it q b total = record s {
  src_it = (buf_iter_next it).1;
  dst_it = (buf_iter_next s.dst_it).1;
  dst_mem = set s.dst_mem q b;
  dst_rem = sub_size s.dst_rem 1;
  src_total = total;
  dst_total = add_size s.dst_total 1;
}

not_special : (x : ℕ) → special x ≡ false → ((x == end_byte) ≡ false) × ((x == esc_byte) ≡ false)
not_special x e = ground arith

module _ (m n : ℕ) (src : List ℕ) (s : Decoder) (p : ℕ) (ps : List ℕ) where
  load_lem :
      {qs : List ℕ}
      → Ready m n src s (p ∷ ps) qs
      → get_elem? src s.src_it.ptr ≡ some (get_or src p 0)
  load_lem r = rw r.reading.0 (get_elem?-eq-get_or src p 0 (omega arith))

  -- END ends the message.
  pub decode_body_end :
      {qs : List ℕ}
      → Ready m n src s (p ∷ ps) qs
      → get_or src p 0 ≡ end_byte
      → decode_body src s
        ≡ some (false, record s { src_total = s.src_total + 1; end_reached = true })
  unfolding decode_body
  decode_body_end r e =
      rw (load_lem r, e)
        (ap (λ (k : ℕ). some (false, record s { src_total = k; end_reached = true })) (omega arith))

  pub decode_body_plain :
      (q : ℕ) (qs : List ℕ)
      → Ready m n src s (p ∷ ps) (q ∷ qs)
      → special (get_or src p 0) ≡ false
      → decode_body src s
        ≡ some (not (is_nil ps), decoded s s.src_it q (get_or src p 0) (add_size s.src_total 1))
  unfolding decode_body
  decode_body_plain q qs r e = rw (
    load_lem r,
    (not_special (get_or src p 0) e).0,
    (not_special (get_or src p 0) e).1,
    emit_lem (get_or src p 0) n s.dst_mem s.dst_it q qs r.writing r.dst_in,
    r.reading.2,
  )

pub decode_body_escaped :
    (m n : ℕ) (src : List ℕ) (s : Decoder) (p p' : ℕ) (ps : List ℕ) (q : ℕ) (qs : List ℕ)
    → Ready m n src s (p ∷ p' ∷ ps) (q ∷ qs)
    → get_or src p 0 ≡ esc_byte
    → decode_body src s
      ≡ some (
        not (is_nil ps),
        decoded s
            (buf_iter_next s.src_it).1
            q
            (get_or src p' 0)
            (add_size (add_size s.src_total 1) 1),
      )
unfolding decode_body
decode_body_escaped m n src s p p' ps q qs r e = rw (
  load_lem m n src s p (p' ∷ ps) r,
  e,
  load_second,
  emit_lem (get_or src p' 0) n s.dst_mem s.dst_it q qs r.writing r.dst_in,
  r.reading.3.2,
)
  where
    load_second : get_elem? src (buf_iter_next s.src_it).1.ptr ≡ some (get_or src p' 0)
    load_second = rw r.reading.3.0 (get_elem?-eq-get_or src p' 0 (omega arith))
