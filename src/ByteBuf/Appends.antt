-- ===== src/ByteBuf/Appends.antt =====
-- commons/ByteBuf.hpp: a writer as a relation between the buffers before and after it.
use kiteq_client_cpp.Base.{
  ℕ, ◌+◌, ◌%◌, ◌^◌, ◌≤◌, ◌<◌, ◌≡◌, refl, ap, ◌∙◌, List, [], ◌∷◌, ◌++◌, some, length, append_assoc,
  arith, length-append,
}
use kiteq_client_cpp.ByteBuf.{
  ByteBuf, Platform, push_all, write_byte, write_short, write_int, write_long, write_bytes,
  add_writer_index,
}
use kiteq_client_cpp.ByteBuf.Fields.{
  short_bytes, int_bytes, long_bytes, push_all-buff, push_all-indices, write_byte-buff,
  write_short-buff, write_int-buff, write_long-buff, write_bytes_lem,
}
use kiteq_client_cpp.ByteBuf.Invariant.{push_all-capacity}

-- `b'` is `b` with the bytes `cs` written behind; with room for them nothing is reallocated.
pub record Appends (b : ByteBuf) (cs : List ℕ) (b' : ByteBuf) : Type 0 where
  pub content : b'.buff ≡ b.buff ++ cs
  pub reader : b'.reader_index ≡ b.reader_index
  pub writer : b'.writer_index ≡ (b.writer_index + length cs) % 2 ^ 32
  pub room : length b.buff + length cs ≤ b.capacity → b'.capacity ≡ b.capacity

pub Appends-trans :
    {b b' b'' : ByteBuf} (cs ds : List ℕ)
    → Appends b cs b'
    → Appends b' ds b''
    → Appends b (cs ++ ds) b''
Appends-trans {b} cs ds p q = record {
  content = q.content ∙ ap (λ xs. xs ++ ds) p.content ∙ append_assoc b.buff cs ds;
  reader = q.reader ∙ p.reader;
  writer = omega (arith, q.writer, p.writer, length-append cs ds);
  room = λ h.
      let first = p.room (omega (arith, h, length-append cs ds)) in
      let long = length-append b.buff cs in
      q.room (omega (arith, first, long, ap length p.content, h, length-append cs ds)) ∙ first;
}

module _ (pf : Platform) where
  push_all-Appends :
      (b : ByteBuf) (raw cs : List ℕ) (n : ℕ)
      → (add_writer_index (push_all pf b raw) n).buff ≡ b.buff ++ cs
      → length raw ≡ n
      → length cs ≡ n
      → Appends b cs (add_writer_index (push_all pf b raw) n)
  unfolding add_writer_index
  push_all-Appends b raw cs n e long_raw long = record {
    content = e;
    reader = (push_all-indices pf b raw).0;
    writer = omega (arith, (push_all-indices pf b raw).1);
    room = λ h. push_all-capacity pf b raw (omega arith);
  }

  pub write_byte-Appends : (b : ByteBuf) (c : ℕ) → Appends b (c ∷ []) (write_byte pf b c)
  unfolding write_byte push_all
  write_byte-Appends b c = push_all-Appends b (c ∷ []) (c ∷ []) 1 (write_byte-buff pf b c) refl refl

  pub write_short-Appends : (b : ByteBuf) (i : ℕ) → Appends b (short_bytes i) (write_short pf b i)
  unfolding write_short
  write_short-Appends b i =
      push_all-Appends b _ (short_bytes i) 2 (write_short-buff pf b i) refl refl

  pub write_int-Appends : (b : ByteBuf) (i : ℕ) → Appends b (int_bytes i) (write_int pf b i)
  unfolding write_int
  write_int-Appends b i = push_all-Appends b _ (int_bytes i) 4 (write_int-buff pf b i) refl refl

  pub write_long-Appends : (b : ByteBuf) (i : ℕ) → Appends b (long_bytes i) (write_long pf b i)
  unfolding write_long
  write_long-Appends b i = push_all-Appends b _ (long_bytes i) 8 (write_long-buff pf b i) refl refl

  -- `writeBytes` of a whole array reads nothing out of range.
  pub write_bytes-Appends :
      (b : ByteBuf) (src : List ℕ)
      → b.writer_index < 2 ^ 32
      → length src < 2 ^ 31
      → (b' : ByteBuf) × (write_bytes pf b src (length src) ≡ some b') × Appends b src b'
  write_bytes-Appends b src index h = (
    _,
    write_bytes_lem pf b src index h,
    push_all-Appends b src src (length src) (unfold add_writer_index in push_all-buff pf b src) refl
        refl,
  )
