-- ===== src/ByteBuf/Invariant.antt =====
-- commons/ByteBuf.hpp: the invariant of the buffer, and the capacity that a packet needs.
use kiteq_client_cpp.Base.{
  ℕ, ◌+◌, ◌^◌, ◌≤◌, ◌<◌, ◌≡◌, ◌≢◌, refl, ap, List, [], ◌∷◌, some, length, arith, length-append,
}
use kiteq_client_cpp.ByteBuf.{
  ByteBuf, Platform, empty, sized, resize, clear, push_back, push_all, write_byte, write_short,
  write_int, write_long, write_bytes, add_writer_index,
}
use kiteq_client_cpp.ByteBuf.Fields.{push_all-buff, push_all-indices, write_bytes_lem}

-- The writer index is the end of the content, and the content fits the capacity.
pub record IsValid (b : ByteBuf) : Type 0 where
  pub at_end : b.writer_index ≡ length b.buff
  pub fits : length b.buff ≤ b.capacity

pub empty-IsValid : IsValid empty
unfolding empty
empty-IsValid = omega arith

pub sized-IsValid : (n : ℕ) → IsValid (sized n)
unfolding sized
sized-IsValid n = omega arith

pub resize-IsValid : {b : ByteBuf} (n : ℕ) → IsValid b → IsValid (resize b n)
unfolding resize
resize-IsValid n v = omega arith

module _ (pf : Platform) where
  push_all-fits :
      (b : ByteBuf) (cs : List ℕ)
      → length b.buff ≤ b.capacity
      → length (push_all pf b cs).buff ≤ (push_all pf b cs).capacity
  unfolding push_all push_back
  push_all-fits b [] h = h
  push_all-fits b (c ∷ cs) h =
      push_all-fits (push_back pf b c) cs
        (ground (arith, pf.lt-grow b.capacity, length-append b.buff (c ∷ [])))

  -- While there is room, pushing leaves the capacity.
  pub push_all-capacity :
      (b : ByteBuf) (cs : List ℕ)
      → length b.buff + length cs ≤ b.capacity
      → (push_all pf b cs).capacity ≡ b.capacity
  unfolding push_all push_back
  push_all-capacity b [] h = refl
  push_all-capacity b (c ∷ cs) h =
      ground (arith, length-append b.buff (c ∷ []), push_all-capacity (push_back pf b c) cs)

  pub appended-IsValid :
      {b : ByteBuf} (cs : List ℕ) (n : ℕ)
      → length cs ≡ n
      → length b.buff + n < 2 ^ 31
      → IsValid b
      → IsValid (add_writer_index (push_all pf b cs) n)
  unfolding add_writer_index
  appended-IsValid {b} cs n h small v = record {
    at_end = omega (
      arith,
      v.at_end,
      (push_all-indices pf b cs).1,
      ap length (push_all-buff pf b cs),
      length-append b.buff cs,
    );
    fits = push_all-fits b cs v.fits;
  }

  -- Writing a byte, a short, an int or a long to a valid buffer whose content and eight bytes
  -- more are fewer than 2^31 keeps it valid: its writer index, which wraps at 32 bits, is the
  -- end of its content, and the content fits the capacity.
  pub write-IsValid :
      {b : ByteBuf} (i : ℕ)
      → length b.buff + 8 < 2 ^ 31
      → IsValid b
      → IsValid (write_byte pf b i)
        × IsValid (write_short pf b i)
        × IsValid (write_int pf b i)
        × IsValid (write_long pf b i)
  unfolding write_byte write_short write_int write_long
  write-IsValid {b} i small v = (
    unfold push_all in appended-IsValid (i ∷ []) 1 refl (omega (arith, small)) v,
    appended-IsValid _ 2 refl (omega (arith, small)) v,
    appended-IsValid _ 4 refl (omega (arith, small)) v,
    appended-IsValid _ 8 refl (omega (arith, small)) v,
  )

  -- `writeBytes` of a whole array that leaves the buffer below 2^31 bytes reads nothing out of range
  -- and keeps the buffer valid.
  pub write_bytes-IsValid :
      {b : ByteBuf} (src : List ℕ)
      → length b.buff + length src < 2 ^ 31
      → IsValid b
      → (b' : ByteBuf) × (write_bytes pf b src (length src) ≡ some b') × IsValid b'
  write_bytes-IsValid {b} src h v = (
    _,
    write_bytes_lem pf b src (omega (arith, h, v.at_end)) (omega (arith, h)),
    appended-IsValid src (length src) refl h v,
  )

-- `clear` of a valid buffer that holds a byte leaves a buffer that is not valid: its indices
-- stay.
pub clear-not-IsValid : {b : ByteBuf} → IsValid b → b.buff ≢ [] → ¬ IsValid (clear b)
unfolding clear
clear-not-IsValid v some_bytes cleared = ground (arith, v.at_end, cleared.at_end)
