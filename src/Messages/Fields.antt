-- ===== src/Messages/Fields.antt =====
-- protocol/protobuf/generated/kite_remoting.pb.cc: a field that is written if its has bit is set, read
-- back and counted, in front of the fields that follow it.
use kiteq_client_cpp.Base.{
  ℕ, ◌+◌, ◌%◌, ◌^◌, ◌<◌, ◌≡◌, refl, sym, ap, ◌∙◌, Bool, true, false, List, [], ◌∷◌, ◌++◌, Option,
  some, arith, if◌then◌else◌, length, length-append, true-not-false,
}
use kiteq_client_cpp.Messages.{Wire, Switched, read_with}
use kiteq_client_cpp.Messages.Reads.{Reads, Reads-trans, Reads-optional}

-- A has bit that is set needs no default.
pub set_field : {has : Bool} {X : Type 0} → has ≡ true → has ≡ false → X
set_field on off = absurd (true-not-false on off)

pub fits-int : (n : ℕ) → n < 2 ^ 32 → n ≡ n % 2 ^ 32
fits-int n small = omega (arith, small)

-- What such a field and the rest of the bytes come to.
pub length-optional :
    (has : Bool) (tag : ℕ) (written rest : List ℕ) {size others : ℕ}
    → length written ≡ size
    → length rest ≡ others
    → length ((if has then tag ∷ written else []) ++ rest) ≡ (if has then 1 + size else 0) + others
length-optional true tag written rest counted after =
    omega (arith, length-append written rest, counted, after)
length-optional false tag written rest counted after = omega (arith, after)

-- `MergeFrom` sets a field whose has bit is set in the source, here of an object that has its default.
pub merge-optional :
    {A V : Type 0} (put : V → Bool → A) (unset v : V) (has : Bool)
    → (has ≡ false → v ≡ unset)
    → (if has then put v true else put unset false) ≡ put v has
merge-optional put unset v true default = refl
merge-optional put unset v false default = ap (λ x. put x false) (sym (default refl))

-- `Clear` leaves a text alone that was not set.
pub clear-optional :
    {V : Type 0} (unset v : V) (has : Bool)
    → (has ≡ false → v ≡ unset)
    → (if has then unset else v) ≡ unset
clear-optional unset v true default = refl
clear-optional unset v false default = default refl

module _ (w : Wire) {A : Type 0} (switch : ℕ → List ℕ → A → Switched A)
    (add_unknown : List ℕ → A → A) where
  -- The switch reads a value under the field's tag, and what was written is read back as that value.
  pub Reads-value :
      {V : Type 0} (tag : ℕ) (put : V → Bool → A) (unset v : V) (has : Bool)
      (read : List ℕ → Option (V × List ℕ)) (written : List ℕ) (broken : List ℕ → A)
      {rest left : List ℕ} {s : A}
      → 0 < tag
      → tag < 128
      → ((input : List ℕ)
          → switch tag input (put unset false)
            ≡ read_with (broken input) (read input) (λ x. put x true))
      → ((after : List ℕ) → read (written ++ after) ≡ some (v, after))
      → (has ≡ false → v ≡ unset)
      → Reads w switch add_unknown rest left (put v has) s
      → Reads w switch add_unknown
          ((if has then tag ∷ written else []) ++ rest)
          left
          (put unset false)
          s
  Reads-value tag put unset v has read written broken {rest} pos low switches reads default others =
      Reads-trans w switch add_unknown
        (Reads-optional w switch add_unknown tag put unset v has written rest pos low
          (λ _. switches (written ++ rest) ∙ rw (reads rest)) default)
        others
