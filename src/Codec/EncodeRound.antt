-- ===== src/Codec/EncodeRound.antt =====
-- One round of the loop of `encode`.
use os_tasks.Prelude.{
  ℕ, suc, ◌+◌, ◌-◌, ◌^◌, ◌≤◌, ◌<◌, ◌≡◌, refl, sym, ap, ◌∙◌, true, false, not, some, List, [], ◌∷◌,
  ◌++◌, arith, Bool-cases, inl, inr, is_nil, length, length-append, drop, set, length-set, get_or,
  get_elem?, get_elem?-eq-get_or, fill, add_size, sub_size,
}
use mathlib.Core.Path.{subst}
use os_tasks.BufIter.{buf_iter_next}
use os_tasks.BufIter.Walk.{Walks}
use os_tasks.Codec.{Encoder, put_byte, encode_body, esc_byte}
use os_tasks.Codec.Escape.{special, escape_byte, escape_plain, escape_special, le→ltb}
use os_tasks.Codec.Emit.{fill-nil, fill-append, drop-drop, emit_lem}

-- `s'` is `s` after `es` went to the places `qs`, for `k` bytes of the source.
pub record Emitted (n : ℕ) (s : Encoder) (qs es : List ℕ) (k : ℕ) (s' : Encoder) : Type 0 where
  pub mem : s'.dst_mem ≡ fill s.dst_mem qs es
  pub walks : Walks n s'.dst_it (drop (length es) qs)
  pub src_total : s'.src_total ≡ s.src_total + k
  pub dst_total : s'.dst_total ≡ s.dst_total + length es

pub Emitted-append :
    (n : ℕ) (s s' s'' : Encoder) (qs es fs : List ℕ) (k : ℕ)
    → Emitted n s qs es 1 s'
    → Emitted n s' (drop (length es) qs) fs k s''
    → Emitted n s qs (es ++ fs) (suc k) s''
Emitted-append n s s' s'' qs es fs k a b = record {
  mem =
      b.mem
      ∙ ap (λ m. fill m (drop (length es) qs) fs) a.mem
      ∙ sym (fill-append s.dst_mem qs es fs);
  walks =
      subst (Walks n s''.dst_it)
        (drop-drop (length es) (length fs) qs ∙ ap (λ k. drop k qs) (sym (length-append es fs)))
        b.walks;
  src_total = omega arith;
  dst_total = omega (arith, length-append es fs);
}

abbrev pub after_put : Encoder → ℕ → ℕ → Encoder
after_put s q x = record s {
  dst_mem = set s.dst_mem q x;
  dst_it = (buf_iter_next s.dst_it).1;
  dst_total = add_size s.dst_total 1;
}

pub put_byte_lem :
    (x n : ℕ) (s : Encoder) (q : ℕ) (qs : List ℕ)
    → Walks n s.dst_it (q ∷ qs)
    → n ≤ length s.dst_mem
    → put_byte x s ≡ some (after_put s q x)
unfolding put_byte
put_byte_lem x n s q qs w h = rw (emit_lem x n s.dst_mem s.dst_it q qs w h)

-- The facts that hold at the head of the loop of `encode`.
pub record Ready (m n : ℕ) (src : List ℕ) (s : Encoder) (p : ℕ) (ps qs : List ℕ) : Type 0 where
  pub reading : Walks m s.src_it (p ∷ ps)
  pub src_in : m ≤ length src
  pub writing : Walks n s.dst_it qs
  pub dst_in : n ≤ length s.dst_mem
  pub room : s.dst_rem < length qs
  pub small : s.dst_total + s.dst_rem ≤ 2 ^ 62
  pub totals : s.src_total ≤ s.dst_total

-- A round that does not break.
pub record Round (n : ℕ) (src : List ℕ) (s : Encoder) (p : ℕ) (qs : List ℕ) (s' : Encoder)
    : Type 0 where
  pub emitted : Emitted n s qs (escape_byte (get_or src p 0)) 1 s'
  pub rest : s'.dst_rem ≡ s.dst_rem - length (escape_byte (get_or src p 0))
  pub advanced : s'.src_it ≡ (buf_iter_next s.src_it).1

pub encode_body_stop :
    (m n : ℕ) (src : List ℕ) (s : Encoder) (p : ℕ) (ps qs : List ℕ)
    → Ready m n src s p ps qs
    → 0 < s.dst_rem
    → s.dst_rem < length (escape_byte (get_or src p 0))
    → encode_body src s ≡ some (false, s)
unfolding encode_body escape_byte
encode_body_stop m n src s p ps qs r h k = ground (arith, get_elem?-eq-get_or src s.src_it.ptr 0)

-- The rest of a round, from where `b` is written: the state, and what is known of it.
abbrev pub counted : Encoder → Encoder
counted s = record s { dst_rem = sub_size s.dst_rem 1; src_total = add_size s.src_total 1 }

abbrev pub advanced_src : Encoder → Encoder
advanced_src s = record s { src_it = (buf_iter_next s.src_it).1 }

module _ (m n : ℕ) (src : List ℕ) (s : Encoder) (p : ℕ) (ps : List ℕ) where
  abbrev byte : ℕ
  byte = get_or src p 0

  load_lem : {qs : List ℕ} → Ready m n src s p ps qs → get_elem? src s.src_it.ptr ≡ some byte
  load_lem r = rw r.reading.0 (get_elem?-eq-get_or src p 0 (omega arith))

  abbrev plain : ℕ → Encoder
  plain q = advanced_src (after_put (counted s) q byte)

  encode_body_unescaped :
      (q : ℕ) (qs : List ℕ)
      → Ready m n src s p ps (q ∷ qs)
      → special byte ≡ false
      → encode_body src s ≡ some (not (is_nil ps), plain q)
  unfolding encode_body
  encode_body_unescaped q qs r e =
      rw (load_lem r, e, put_byte_lem byte n (counted s) q qs r.writing (omega arith), r.reading.2)

  plain-Round :
      (q : ℕ) (qs : List ℕ)
      → Ready m n src s p ps (q ∷ qs)
      → special byte ≡ false
      → 0 < s.dst_rem
      → Round n src s p (q ∷ qs) (plain q)
  unfolding fill
  plain-Round q qs r e h = record {
    emitted = record {
      mem = rw (escape_plain byte e) (sym (fill-nil (set s.dst_mem q byte) qs));
      walks = rw (escape_plain byte e) r.writing.3;
      src_total = omega arith;
      dst_total = rw (escape_plain byte e) (omega arith);
    };
    rest = rw (escape_plain byte e) (omega arith);
    advanced = refl;
  }

  abbrev escaping : Encoder
  escaping = record s { dst_rem = sub_size s.dst_rem 1 }

  abbrev escaped : ℕ → ℕ → Encoder
  escaped q q' = advanced_src (after_put (counted (after_put escaping q esc_byte)) q' byte)

  encode_body_two_bytes :
      (q q' : ℕ) (qs : List ℕ)
      → Ready m n src s p ps (q ∷ q' ∷ qs)
      → special byte ≡ true
      → 1 < s.dst_rem
      → encode_body src s ≡ some (not (is_nil ps), escaped q q')
  unfolding encode_body
  encode_body_two_bytes q q' qs r e h = rw (
    load_lem r,
    e,
    le→ltb s.dst_rem 2 h,
    put_byte_lem esc_byte n escaping q (q' ∷ qs) r.writing (omega arith),
    put_byte_lem byte n (counted (after_put escaping q esc_byte)) q' qs r.writing.3
        (omega (arith, length-set s.dst_mem q esc_byte)),
    r.reading.2,
  )

  special-Round :
      (q q' : ℕ) (qs : List ℕ)
      → Ready m n src s p ps (q ∷ q' ∷ qs)
      → special byte ≡ true
      → 1 < s.dst_rem
      → Round n src s p (q ∷ q' ∷ qs) (escaped q q')
  unfolding fill
  special-Round q q' qs r e h = record {
    emitted = record {
      mem = rw (escape_special byte e) (sym (fill-nil (set (set s.dst_mem q esc_byte) q' byte) qs));
      walks = rw (escape_special byte e) r.writing.3.3;
      src_total = omega arith;
      dst_total = rw (escape_special byte e) (omega arith);
    };
    rest = rw (escape_special byte e) (omega arith);
    advanced = refl;
  }

  -- A round for which there is room.
  pub encode_body_next :
      (qs : List ℕ)
      → Ready m n src s p ps qs
      → 0 < s.dst_rem
      → length (escape_byte byte) ≤ s.dst_rem
      → (s' : Encoder) × (encode_body src s ≡ some (not (is_nil ps), s')) × Round n src s p qs s'
  encode_body_next [] r h k = absurd (omega arith)
  encode_body_next (q ∷ qs) r h k = elim (Bool-cases (special byte)) [
    | inl e ↦ two qs r e (omega (arith, ap length (escape_special byte e)))
    | inr e ↦ (plain q, encode_body_unescaped q qs r e, plain-Round q qs r e h)
  ]
    where
      two :
          (qs : List ℕ)
          → Ready m n src s p ps (q ∷ qs)
          → special byte ≡ true
          → 1 < s.dst_rem
          → (s' : Encoder) × (encode_body src s ≡ some (not (is_nil ps), s'))
            × Round n src s p (q ∷ qs) s'
      two [] r e l = absurd (omega arith)
      two (q' ∷ qs) r e l =
          (escaped q q', encode_body_two_bytes q q' qs r e l, special-Round q q' qs r e l)
