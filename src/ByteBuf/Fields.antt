-- ===== src/ByteBuf/Fields.antt =====
-- commons/ByteBuf.hpp: what the writers append, and that the static readers read it back.
use kiteq_client_cpp.Base.{
  ℕ, zero, suc, ◌+◌, ◌*◌, ◌/◌, ◌%◌, ◌^◌, ◌<◌, ◌≡◌, refl, sym, ap, ◌∙◌, List, [], ◌∷◌, ◌++◌, some,
  length, get_elem?, lt→ltb, append_assoc, append-nil, arith, length-append,
}
use kiteq_client_cpp.Base.Word.{low_byte, low_byte-mod, low_byte-char, shl32}
use kiteq_client_cpp.Base.Bits.{bit_or_fields}
use kiteq_client_cpp.ByteBuf.{
  ByteBuf, Platform, sar, short_to_int, join_int, read_short, read_int, push_back, push_all,
  write_byte, write_short, write_int, write_long, copy_loop, write_bytes, add_writer_index,
}

-- The bytes of an integer, the highest first.
abbrev pub short_bytes : ℕ → List ℕ
short_bytes i = i / 2 ^ 8 % 256 ∷ i % 256 ∷ []

abbrev pub int_bytes : ℕ → List ℕ
int_bytes i = i / 2 ^ 24 % 256 ∷ i / 2 ^ 16 % 256 ∷ i / 2 ^ 8 % 256 ∷ i % 256 ∷ []

abbrev pub long_bytes : ℕ → List ℕ
long_bytes i = int_bytes (i / 2 ^ 32) ++ int_bytes i

pub join_int_lem :
    (c1 c2 c3 c4 : ℕ)
    → c1 < 256
    → c2 < 256
    → c3 < 256
    → c4 < 256
    → join_int c1 c2 c3 c4 ≡ c1 * 2 ^ 24 + c2 * 2 ^ 16 + c3 * 2 ^ 8 + c4
join_int_lem c1 c2 c3 c4 h1 h2 h3 h4 =
    rw
      (
        low_byte-char c1 h1,
        low_byte-char c2 h2,
        low_byte-char c3 h3,
        low_byte-char c4 h4,
        shl_small c1 24 (omega arith),
        shl_small c2 16 (omega arith),
        shl_small c3 8 (omega arith),
        bit_or_fields 24 c1 (c2 * 2 ^ 16) (omega arith),
        regroup16,
        bit_or_fields 16 (c1 * 2 ^ 8 + c2) (c3 * 2 ^ 8) (omega arith),
        regroup8,
        bit_or_fields 8 (c1 * 2 ^ 16 + c2 * 2 ^ 8 + c3) c4 (omega arith),
      )
      (omega arith)
  where
    shl_small : (x k : ℕ) → x * 2 ^ k < 2 ^ 32 → shl32 x k ≡ x * 2 ^ k
    shl_small x k h = omega arith

    regroup16 : c1 * 2 ^ 24 + c2 * 2 ^ 16 ≡ (c1 * 2 ^ 8 + c2) * 2 ^ 16
    regroup16 = omega arith

    regroup8 : (c1 * 2 ^ 8 + c2) * 2 ^ 16 + c3 * 2 ^ 8 ≡ (c1 * 2 ^ 16 + c2 * 2 ^ 8 + c3) * 2 ^ 8
    regroup8 = omega arith

pub read_int-int_bytes :
    (i : ℕ) (rest : List ℕ) → i < 2 ^ 32 → read_int (int_bytes i ++ rest) ≡ some i
unfolding read_int
read_int-int_bytes i rest h = ap some (
    join_int_lem (i / 2 ^ 24 % 256) (i / 2 ^ 16 % 256) (i / 2 ^ 8 % 256) (i % 256) (omega arith)
      (omega arith) (omega arith) (omega arith)
    ∙ omega arith)

pub read_short-short_bytes :
    (i : ℕ) (rest : List ℕ) → i < 2 ^ 16 → read_short (short_bytes i ++ rest) ≡ some i
unfolding read_short
read_short-short_bytes i rest h =
    rw
      (
        low_byte-char (i / 2 ^ 8 % 256) (omega arith),
        low_byte-char (i % 256) (omega arith),
        shl_small,
        bit_or_fields 8 (i / 2 ^ 8 % 256) (i % 256) (omega arith),
      )
      (ap some (omega arith))
  where
    shl_small : shl32 (i / 2 ^ 8 % 256) 8 ≡ i / 2 ^ 8 % 256 * 2 ^ 8
    shl_small = omega arith

get_elem?-append_length :
    (done : List ℕ) (c : ℕ) (rest : List ℕ) (i : ℕ)
    → length done ≡ i
    → get_elem? (done ++ c ∷ rest) i ≡ some c
get_elem?-append_length [] c rest zero h = refl
get_elem?-append_length [] c rest (suc i) h = absurd (omega arith)
get_elem?-append_length (x ∷ xs) c rest zero h = absurd (omega arith)
get_elem?-append_length (x ∷ xs) c rest (suc i) h =
    get_elem?-append_length xs c rest i (omega arith)

-- The byte of a signed integer `i` from bit k on is that of its bit pattern.
sar_byte8 : (i : ℕ) → low_byte (sar 32 (short_to_int i) 8) ≡ i / 2 ^ 8 % 256
sar_byte8 i = ground (arith, low_byte-mod (sar 32 (short_to_int i) 8))

module _ (pf : Platform) where
  pub push_all-buff : (b : ByteBuf) (cs : List ℕ) → (push_all pf b cs).buff ≡ b.buff ++ cs
  unfolding push_all push_back
  push_all-buff b [] = sym (append-nil b.buff)
  push_all-buff b (c ∷ cs) = push_all-buff (push_back pf b c) cs ∙ append_assoc b.buff (c ∷ []) cs

  pub push_all-indices :
      (b : ByteBuf) (cs : List ℕ)
      → ((push_all pf b cs).reader_index ≡ b.reader_index)
        × ((push_all pf b cs).writer_index ≡ b.writer_index)
  unfolding push_all push_back
  push_all-indices b [] = (refl, refl)
  push_all-indices b (c ∷ cs) = push_all-indices (push_back pf b c) cs

  pub write_byte-buff : (b : ByteBuf) (c : ℕ) → (write_byte pf b c).buff ≡ b.buff ++ c ∷ []
  unfolding write_byte push_back
  write_byte-buff b c = refl

  pub write_short-buff : (b : ByteBuf) (i : ℕ) → (write_short pf b i).buff ≡ b.buff ++ short_bytes i
  unfolding write_short
  write_short-buff b i = push_all-buff b _ ∙ ap (◌++◌ b.buff) bytes
    where
      bytes : low_byte (sar 32 (short_to_int i) 8) ∷ low_byte (short_to_int i) ∷ [] ≡ short_bytes i
      bytes = rw (sar_byte8 i, low_byte-mod (short_to_int i)) (ground arith)

  pub write_int-buff : (b : ByteBuf) (i : ℕ) → (write_int pf b i).buff ≡ b.buff ++ int_bytes i
  unfolding write_int
  write_int-buff b i =
      push_all-buff b _
      ∙ rw
          (
            low_byte-mod (sar 32 i 24),
            low_byte-mod (sar 32 i 16),
            low_byte-mod (sar 32 i 8),
            low_byte-mod i,
          )
          (ground arith)

  pub write_long-buff : (b : ByteBuf) (i : ℕ) → (write_long pf b i).buff ≡ b.buff ++ long_bytes i
  unfolding write_long
  write_long-buff b i =
      push_all-buff b _
      ∙ rw
          (
            low_byte-mod (sar 64 i 56),
            low_byte-mod (sar 64 i 48),
            low_byte-mod (sar 64 i 40),
            low_byte-mod (sar 64 i 32),
            low_byte-mod (sar 64 i 24),
            low_byte-mod (sar 64 i 16),
            low_byte-mod (sar 64 i 8),
            low_byte-mod i,
          )
          (ground arith)

  copy_loop_lem :
      (src done rest : List ℕ) (i : ℕ) (b : ByteBuf)
      → src ≡ done ++ rest
      → length done ≡ i
      → copy_loop pf src (length rest) i b ≡ some (push_all pf b rest)
  unfolding copy_loop push_all
  copy_loop_lem src done [] i b e h = refl
  copy_loop_lem src done (c ∷ rest) i b e h =
      let read : get_elem? src i ≡ some c = rw e (get_elem?-append_length done c rest i h) in
      rw read (
        copy_loop_lem src (done ++ c ∷ []) rest (i + 1) (push_back pf b c)
          (e ∙ sym (append_assoc done (c ∷ []) rest)) (omega (arith, length-append done (c ∷ []))))

  -- `writeBytes` appends its bytes, and moves the writer index past them.
  pub write_bytes_lem :
      (b : ByteBuf) (src : List ℕ)
      → b.writer_index < 2 ^ 32
      → length src < 2 ^ 31
      → write_bytes pf b src (length src) ≡ some (add_writer_index (push_all pf b src) (length src))
  unfolding write_bytes
  write_bytes_lem b [] index h = unfold add_writer_index push_all in ground arith
  write_bytes_lem b (c ∷ cs) index h = rw (
    lt→ltb (2 ^ 31) ((length (c ∷ cs) + 2 ^ 31) % 2 ^ 32) (omega arith),
    copy_loop_lem (c ∷ cs) [] (c ∷ cs) 0 b refl refl,
  )
