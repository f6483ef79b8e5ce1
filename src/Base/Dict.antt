-- ===== src/Base/Dict.antt =====
-- `std::map`, `boost::unordered_map` and `boost::unordered_set` as association lists: `find`,
-- `insert`, which leaves a key that is there, and `erase` by a key.
use kiteq_client_cpp.Base.{
  ℕ, suc, ◌≡◌, refl, ap, ◌↔◌, inl, inr, Bool, true, false, ◌&&◌, List, [], ◌∷◌, Option, none, some,
  length, ◌==◌, ==_iff, arith, Bool-cases, if◌then◌else◌,
}

pub record Eq {ℓ} (K : Type ℓ) : Type ℓ where
  pub beq : K → K → Bool
  pub beq_iff : (a b : K) → (beq a b ≡ true) ↔ (a ≡ b)

instance abbrev pub nat_eq : Eq ℕ
nat_eq = record { beq = ◌==◌; beq_iff = ==_iff }

-- Strings are lists of bytes.
abbrev pub bytes_beq : List ℕ → List ℕ → Bool
bytes_beq [] [] = true
bytes_beq [] (b ∷ bs) = false
bytes_beq (a ∷ as') [] = false
bytes_beq (a ∷ as') (b ∷ bs) = a == b && bytes_beq as' bs

pub bytes_beq_iff : (a b : List ℕ) → (bytes_beq a b ≡ true) ↔ (a ≡ b)
bytes_beq_iff [] [] = (λ e. refl, λ e. refl)
bytes_beq_iff [] (b ∷ bs) = (λ e. cc, λ e. cc)
bytes_beq_iff (a ∷ as') [] = (λ e. cc, λ e. cc)
bytes_beq_iff (a ∷ as') (b ∷ bs) = ground (arith, bytes_beq_iff as' bs)

instance abbrev pub bytes_eq : Eq (List ℕ)
bytes_eq = record { beq = bytes_beq; beq_iff = bytes_beq_iff }

module _ {ℓ κ} {K : Type ℓ} {V : Type κ} ⦃e : Eq K⦄ where
  abbrev pub find : K → List (K × V) → Option V
  find k [] = none
  find k ((j, v) ∷ m) = if e.beq j k then some v else find k m

  abbrev pub insert : K → V → List (K × V) → List (K × V)
  insert k v m = elim (find k m) [ some _ ↦ m | none ↦ (k, v) ∷ m ]

  abbrev pub erase : K → List (K × V) → List (K × V)
  erase k [] = []
  erase k ((j, v) ∷ m) = if e.beq j k then erase k m else (j, v) ∷ erase k m

  -- Every key stands once.
  abbrev pub IsMap : List (K × V) → Type κ
  IsMap [] = Unit
  IsMap ((k, v) ∷ m) = (find k m ≡ none) × IsMap m

  pub find-insert :
      (k j : K) (v : V) (m : List (K × V))
      → find j (insert k v m)
        ≡ elim (find j m) [ some w ↦ some w | none ↦ if e.beq k j then some v else none ]
  find-insert k j v m = ground (arith, e.beq_iff k j)

  pub find-erase :
      (k j : K) (m : List (K × V)) → find j (erase k m) ≡ (if e.beq k j then none else find j m)
  find-erase k j [] = ground arith
  find-erase k j ((i, v) ∷ m) =
      ground (arith, e.beq_iff k j, e.beq_iff i k, e.beq_iff i j, find-erase k j m)

  pub insert-IsMap : (k : K) (v : V) (m : List (K × V)) → IsMap m → IsMap (insert k v m)
  insert-IsMap k v m h = ground arith

  pub erase-IsMap : (k : K) (m : List (K × V)) → IsMap m → IsMap (erase k m)
  erase-IsMap k [] h = tt
  erase-IsMap k ((j, v) ∷ m) h = ground (arith, erase-IsMap k m, find-erase k j m)

  pub erase-absent : (k : K) (m : List (K × V)) → find k m ≡ none → erase k m ≡ m
  erase-absent k [] h = refl
  erase-absent k ((j, v) ∷ m) h = ground (arith, erase-absent k m)

  pub length-erase :
      (k : K) (m : List (K × V)) (v : V)
      → IsMap m
      → find k m ≡ some v
      → suc (length (erase k m)) ≡ length m
  length-erase k [] v h found = cc
  length-erase k ((j, w) ∷ m) v h found = elim (Bool-cases (e.beq j k)) [
    | inl hit ↦
        let absent : find k m ≡ none = rw (← (e.beq_iff j k).0 hit) h.0 in
        rw hit (ap suc (ap length (erase-absent k m absent)))
    | inr miss ↦ rw miss (ap suc (length-erase k m v h.1 (rw miss at found)))
  ]
