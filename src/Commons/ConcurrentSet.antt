-- ===== src/Commons/ConcurrentSet.antt =====
-- commons/ConcurrentSet.hpp. `putIfAbsent` is a template member that does not compile when it is
-- used, since it takes the `second` of a set's iterator; it has no model.
use kiteq_client_cpp.Base.{
  ℕ, ◌+◌, ◌≡◌, Bool, true, false, List, [], none, some, length, arith, if◌then◌else◌,
}
use kiteq_client_cpp.Base.Dict.{
  Eq, find, insert, erase, IsMap, find-insert, find-erase, insert-IsMap, erase-IsMap, length-erase,
}

module _ {ℓ} {K : Type ℓ} ⦃e : Eq K⦄ where
  unfoldable pub new_set : List (K × Unit {0})
  new_set = []

  -- `~ConcurrentSet`.
  unfoldable pub destroy_set : List (K × Unit {0}) → List (K × Unit {0})
  destroy_set s = []

  -- The unordered_set is a map to nothing.
  unfoldable pub add : K → List (K × Unit {0}) → List (K × Unit {0})
  add k s = elim (find k s) [ some _ ↦ s | none ↦ insert k tt s ]

  unfoldable pub remove : K → List (K × Unit {0}) → Bool × List (K × Unit {0})
  remove k s = elim (find k s) [ none ↦ (false, s) | some _ ↦ (true, erase k s) ]

  unfoldable pub contains_key : K → List (K × Unit {0}) → Bool
  contains_key k s = elim (find k s) [ none ↦ false | some _ ↦ true ]

  unfoldable pub size : List (K × Unit {0}) → ℕ
  size s = length s

  -- After `add` on a set without repetitions the element is in, no other has changed, none
  -- stands twice, and the size has grown by one exactly if the element was new.
  pub add_lem :
      (k j : K) (s : List (K × Unit {0}))
      → IsMap s
      → (contains_key j (add k s) ≡ (if e.beq k j then true else contains_key j s))
        × IsMap (add k s)
        × (size (add k s) ≡ (if contains_key k s then size s else size s + 1))
  unfolding add contains_key size
  add_lem k j s h = ground (arith, find-insert k j tt s, e.beq_iff k j, insert-IsMap k tt s)

  -- `remove` on a set without repetitions tells whether the element was in; afterwards it is
  -- out, no other has changed, none stands twice, and the size has shrunk by one exactly if the
  -- element was in.
  pub set_remove_lem :
      (k j : K) (s : List (K × Unit {0}))
      → IsMap s
      → let r = remove k s in
        (r.0 ≡ contains_key k s)
        × (contains_key j r.1 ≡ (if e.beq k j then false else contains_key j s))
        × IsMap r.1
        × ((if r.0 then size r.1 + 1 else size r.1) ≡ size s)
  unfolding remove contains_key size
  set_remove_lem k j s h =
      ground (arith, find-erase k j s, e.beq_iff k j, erase-IsMap k s, length-erase k s tt)
