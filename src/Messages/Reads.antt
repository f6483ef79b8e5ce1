-- ===== src/Messages/Reads.antt =====
-- protocol/protobuf/generated/kite_remoting.pb.cc: the loop on the fields of a message, some of which
-- may be unset.
use kiteq_client_cpp.Base.{
  ℕ, suc, ◌+◌, ◌-◌, ◌≤◌, ◌<◌, ◌≡◌, refl, sym, ap, ◌∙◌, Bool, true, false, List, [], ◌∷◌, ◌++◌, some,
  arith, if◌then◌else◌, length, length-append, subst,
}
use kiteq_client_cpp.Messages.{Wire, Switched, field, unusual, merge_loop, consumed}
use kiteq_client_cpp.Messages.Loop.{merge_loop-field, merge_loop-end, consumed-field, consumed-end}

module _ (w : Wire) {A : Type 0} (switch : ℕ → List ℕ → A → Switched A)
    (add_unknown : List ℕ → A → A) where
  -- What a function of the loop does on a field whose tag the switch knows.
  abbrev pub Follows : {R : Type 0} → (ℕ → List ℕ → A → R) → Type 0
  Follows f =
      (fuel tag : ℕ) (bytes rest : List ℕ) (m m' : A)
      → 0 < tag
      → tag < 128
      → switch tag bytes m ≡ field m' rest
      → f (suc fuel) (tag ∷ bytes) m ≡ f fuel rest m'

  -- Some rounds of the loop read the bytes in front of the rest, at least one byte each.
  pub record Reads (bytes rest : List ℕ) (s s' : A) : Type 1 where
    pub rounds : ℕ
    pub enough : rounds + length rest ≤ length bytes
    pub reads :
        {R : Type 0} (f : ℕ → List ℕ → A → R) (n fuel : ℕ)
        → Follows f
        → n ≡ rounds + fuel
        → f n bytes s ≡ f fuel rest s'

  pub Reads-none : (bytes : List ℕ) (s : A) → Reads bytes bytes s s
  Reads-none bytes s = record {
    rounds = 0;
    enough = omega arith;
    reads = λ f n fuel follows e. ap (λ k. f k bytes s) (omega (arith, e));
  }

  pub Reads-trans : {a b c : List ℕ} {s t u : A} → Reads a b s t → Reads b c t u → Reads a c s u
  Reads-trans r q = record {
    rounds = r.rounds + q.rounds;
    enough = omega (arith, r.enough, q.enough);
    reads = λ f n fuel follows e.
        r.reads f n (q.rounds + fuel) follows (omega (arith, e))
        ∙ q.reads f (q.rounds + fuel) fuel follows refl;
  }

  -- A field is written if it is set, and otherwise it has its default.
  pub Reads-optional :
      {V : Type 0} (tag : ℕ) (put : V → Bool → A) (unset v : V) (has : Bool) (written rest : List ℕ)
      → 0 < tag
      → tag < 128
      → (has ≡ true → switch tag (written ++ rest) (put unset false) ≡ field (put v true) rest)
      → (has ≡ false → v ≡ unset)
      → Reads ((if has then tag ∷ written else []) ++ rest) rest (put unset false) (put v has)
  Reads-optional tag put unset v false written rest pos low known default =
      subst (λ x. Reads rest rest (put unset false) (put x false)) (sym (default refl))
        (Reads-none rest (put unset false))
  Reads-optional tag put unset v true written rest pos low known default = record {
    rounds = 1;
    enough = omega (arith, length-append written rest);
    reads = λ f n fuel follows e.
        let next : n ≡ suc fuel = omega (arith, e) in
        rw next (
          follows fuel tag (written ++ rest) rest (put unset false) (put v true) pos low
            (known refl));
  }

  -- One field is one round.
  pub Reads-field :
      (tag : ℕ) (bytes rest : List ℕ) (s s' : A)
      → 0 < tag
      → tag < 128
      → length rest ≤ length bytes
      → switch tag bytes s ≡ field s' rest
      → Reads (tag ∷ bytes) rest s s'
  Reads-field tag bytes rest s s' pos low shorter known = record {
    rounds = 1;
    enough = omega (arith, shorter);
    reads = λ f n fuel follows e.
        let next : n ≡ suc fuel = omega (arith, e) in
        rw next (follows fuel tag bytes rest s s' pos low known);
  }

  -- One round for each byte and one more are enough for all of it.
  pub Reads-end :
      (bytes rest : List ℕ) (s s' : A)
      → rest ≡ []
      → Reads bytes rest s s'
      → switch 0 [] s' ≡ unusual
      → (merge_loop w switch add_unknown (suc (length bytes)) bytes s ≡ some (true, s'))
        × (consumed w switch add_unknown (suc (length bytes)) bytes s ≡ true)
  Reads-end bytes rest s s' none_left r unknown =
      let left = length bytes - r.rounds in
      let count : suc (length bytes) ≡ r.rounds + suc left = omega (arith, r.enough) in
      (
        r.reads (merge_loop w switch add_unknown) (suc (length bytes)) (suc left)
              (merge_loop-field w switch add_unknown) count
            ∙ rw none_left (merge_loop-end w switch add_unknown left s' unknown),
        r.reads (consumed w switch add_unknown) (suc (length bytes)) (suc left)
              (consumed-field w switch add_unknown) count
            ∙ rw none_left (consumed-end w switch add_unknown left s' unknown),
      )
