-- ===== src/Messages/Loop.antt =====
-- protocol/protobuf/generated/kite_remoting.pb.cc: the loop on bytes that were written.
use kiteq_client_cpp.Base.{ℕ, suc, ◌<◌, ◌≡◌, refl, true, List, [], ◌∷◌, some, arith, le→leb}
use kiteq_client_cpp.Messages.{Wire, Switched, field, unusual, merge_loop, consumed}

module _ (w : Wire) {A : Type 0} (switch : ℕ → List ℕ → A → Switched A)
    (add_unknown : List ℕ → A → A) where
  -- A field whose tag the switch knows is read in one round.
  pub merge_loop-field :
      (fuel tag : ℕ) (bytes rest : List ℕ) (m m' : A)
      → 0 < tag
      → tag < 128
      → switch tag bytes m ≡ field m' rest
      → merge_loop w switch add_unknown (suc fuel) (tag ∷ bytes) m
        ≡ merge_loop w switch add_unknown fuel rest m'
  unfolding merge_loop
  merge_loop-field fuel tag bytes rest m m' pos low known =
      rw (w.read_tag-byte tag bytes pos low, merge_loop) (rw (le→leb tag 127 (omega arith), known))

  -- At the end the loop succeeds, if the switch does not know the tag 0.
  pub merge_loop-end :
      (fuel : ℕ) (m : A)
      → switch 0 [] m ≡ unusual
      → merge_loop w switch add_unknown (suc fuel) [] m ≡ some (true, m)
  unfolding merge_loop
  merge_loop-end fuel m unknown =
      rw (w.read_tag-end, merge_loop) (rw unknown (rw w.read_tag-end refl))

  pub consumed-field :
      (fuel tag : ℕ) (bytes rest : List ℕ) (m m' : A)
      → 0 < tag
      → tag < 128
      → switch tag bytes m ≡ field m' rest
      → consumed w switch add_unknown (suc fuel) (tag ∷ bytes) m
        ≡ consumed w switch add_unknown fuel rest m'
  unfolding consumed
  consumed-field fuel tag bytes rest m m' pos low known =
      rw (w.read_tag-byte tag bytes pos low, consumed) (rw (le→leb tag 127 (omega arith), known))

  pub consumed-end :
      (fuel : ℕ) (m : A)
      → switch 0 [] m ≡ unusual
      → consumed w switch add_unknown (suc fuel) [] m ≡ true
  unfolding consumed
  consumed-end fuel m unknown = rw (w.read_tag-end, consumed) (rw unknown (rw w.read_tag-end refl))
