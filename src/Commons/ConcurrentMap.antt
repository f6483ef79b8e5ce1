-- ===== src/Commons/ConcurrentMap.antt =====
-- commons/ConcurrentMap.hpp. An out parameter is an argument and a result; the map comes last.
use kiteq_client_cpp.Base.{
  ◌≡◌, Bool, true, false, List, [], ◌∷◌, Option, none, some, refl, ap₂, arith, if◌then◌else◌, ◌∙◌,
}
use kiteq_client_cpp.Base.Dict.{
  Eq, find, insert, erase, IsMap, find-insert, find-erase, insert-IsMap, erase-IsMap,
}

-- The calls of a thread, or of several in the order in which they get the lock. A value that is last is
-- what the caller's out parameter holds before the call.
pub data Call {ℓ κ} (K : Type ℓ) (V : Type κ) : Type (ℓ ⊔ κ) where
  puts : K → V → V → Call K V
  removes : K → Call K V
  takes : K → V → Call K V
  gets : K → V → Call K V
  asks : K → Call K V

-- What a call returns, and what its out parameter holds then, if it has one.
pub data Answer {κ} (V : Type κ) : Type κ where
  flag : Bool → Answer V
  with_value : Bool → V → Answer V

-- The specification: a partial function from keys to values.
abbrev pub Spec {ℓ κ} : Type ℓ → Type κ → Type (ℓ ⊔ κ)
Spec K V = K → Option V

abbrev pub or_else {κ} : {V : Type κ} → Option V → V → V
or_else none v = v
or_else (some w) v = w

abbrev pub is_there {κ} : {V : Type κ} → Option V → Bool
is_there none = false
is_there (some w) = true

module _ {ℓ κ} {K : Type ℓ} {V : Type κ} ⦃e : Eq K⦄ where
  unfoldable pub new_map : List (K × V)
  new_map = []

  -- `~ConcurrentMap`.
  unfoldable pub destroy_map : List (K × V) → List (K × V)
  destroy_map m = []

  -- `true`: the key was there, and `oldval` is its value.
  unfoldable pub put_if_absent : K → V → V → List (K × V) → Bool × V × List (K × V)
  put_if_absent k v oldval m = elim (find k m) [
    | some w ↦ (true, w, m)
    | none ↦ (false, oldval, insert k v m)
  ]

  -- `remove(k, v)`.
  unfoldable pub remove_value : K → V → List (K × V) → Bool × V × List (K × V)
  remove_value k v m = elim (find k m) [ none ↦ (false, v, m) | some w ↦ (true, w, erase k m) ]

  unfoldable pub remove : K → List (K × V) → Bool × List (K × V)
  remove k m = elim (find k m) [ none ↦ (false, m) | some w ↦ (true, erase k m) ]

  unfoldable pub get : K → V → List (K × V) → Bool × V
  get k v m = elim (find k m) [ none ↦ (false, v) | some w ↦ (true, w) ]

  unfoldable pub contains_key : K → List (K × V) → Bool
  contains_key k m = elim (find k m) [ none ↦ false | some w ↦ true ]

  unfoldable pub call : Call K V → List (K × V) → Answer V × List (K × V)
  unfolding put_if_absent remove remove_value get contains_key
  call (puts k v oldval) m = let r = put_if_absent k v oldval m in (with_value r.0 r.1, r.2)
  call (removes k) m = let r = remove k m in (flag r.0, r.1)
  call (takes k v) m = let r = remove_value k v m in (with_value r.0 r.1, r.2)
  call (gets k v) m = let r = get k v m in (with_value r.0 r.1, m)
  call (asks k) m = (flag (contains_key k m), m)

  -- The answers in the order of the calls, and the map at the end.
  unfoldable pub run : List (Call K V) → List (K × V) → List (Answer V) × List (K × V)
  unfolding call
  run [] m = ([], m)
  run (c ∷ cs) m = let r = call c m in let rest = run cs r.1 in (r.0 ∷ rest.0, rest.1)

  -- The specification's operations and runs.
  abbrev pub spec_put : K → V → Spec K V → Spec K V
  spec_put k v f j = if e.beq k j then some (or_else (f k) v) else f j

  abbrev pub spec_remove : K → Spec K V → Spec K V
  spec_remove k f j = if e.beq k j then none else f j

  abbrev pub spec_call : Call K V → Spec K V → Answer V × Spec K V
  spec_call (puts k v oldval) f =
      (with_value (is_there (f k)) (or_else (f k) oldval), spec_put k v f)
  spec_call (removes k) f = (flag (is_there (f k)), spec_remove k f)
  spec_call (takes k v) f = (with_value (is_there (f k)) (or_else (f k) v), spec_remove k f)
  spec_call (gets k v) f = (with_value (is_there (f k)) (or_else (f k) v), f)
  spec_call (asks k) f = (flag (is_there (f k)), f)

  abbrev pub spec_run : List (Call K V) → Spec K V → List (Answer V) × Spec K V
  spec_run [] f = ([], f)
  spec_run (c ∷ cs) f =
      let r = spec_call c f in let rest = spec_run cs r.1 in (r.0 ∷ rest.0, rest.1)

  -- `putIfAbsent` tells whether the key was there and hands out its value; afterwards the key has the
  -- old value, or the new one if it had none, and no other key has changed.
  pub put_if_absent_lem :
      (k j : K) (v oldval : V) (m : List (K × V))
      → let r = put_if_absent k v oldval m in
        (r.0 ≡ is_there (find k m))
        × (r.1 ≡ or_else (find k m) oldval)
        × (find j r.2 ≡ spec_put k v (λ i. find i m) j)
  unfolding put_if_absent
  put_if_absent_lem k j v oldval m = ground (arith, find-insert k j v m, e.beq_iff k j)

  -- Both `remove`s tell whether the key was there, the longer one hands out its value, and afterwards
  -- the key is gone and no other has changed.
  pub remove_lem :
      (k j : K) (v : V) (m : List (K × V))
      → let r = remove_value k v m in
        (r.0 ≡ is_there (find k m))
        × (r.1 ≡ or_else (find k m) v)
        × (find j r.2 ≡ spec_remove k (λ i. find i m) j)
        × (remove k m ≡ (r.0, r.2))
  unfolding remove_value remove
  remove_lem k j v m = ground (arith, find-erase k j m, e.beq_iff k j)

  get_lem :
      (k : K) (v : V) (m : List (K × V)) → get k v m ≡ (is_there (find k m), or_else (find k m) v)
  unfolding get
  get_lem k v m = ground arith

  remove_key_lem :
      (k j : K) (m : List (K × V))
      → ((remove k m).0 ≡ is_there (find k m))
        × (find j (remove k m).1 ≡ spec_remove k (λ i. find i m) j)
  unfolding remove
  remove_key_lem k j m = ground (arith, find-erase k j m, e.beq_iff k j)

  contains_key_lem : (k : K) (m : List (K × V)) → contains_key k m ≡ is_there (find k m)
  unfolding contains_key
  contains_key_lem k m = ground arith

  call-spec_call :
      (c : Call K V) (m : List (K × V)) (f : Spec K V)
      → ((j : K) → find j m ≡ f j)
      → ((call c m).0 ≡ (spec_call c f).0) × ((j : K) → find j (call c m).1 ≡ (spec_call c f).1 j)
  unfolding call
  call-spec_call (puts k v oldval) m f h =
      let told = put_if_absent_lem k k v oldval m in
      (rw (told.0, told.1, h k), λ j. (put_if_absent_lem k j v oldval m).2 ∙ rw (h k, h j))
  call-spec_call (removes k) m f h =
      (rw ((remove_key_lem k k m).0, h k), λ j. (remove_key_lem k j m).1 ∙ rw (h j))
  call-spec_call (takes k v) m f h =
      let told = remove_lem k k v m in
      (rw (told.0, told.1, h k), λ j. (remove_lem k j v m).2 ∙ rw (h j))
  call-spec_call (gets k v) m f h = (rw (get_lem k v m, h k), h)
  call-spec_call (asks k) m f h = (rw (contains_key_lem k m, h k), h)

  -- Every sequence of calls of `putIfAbsent`, both `remove`s, `get` and `containsKey` on the
  -- concurrent map returns the flags and hands out the values that it does on a partial
  -- function from keys to values, and leaves the map that it leaves there, if the map agrees
  -- with the function before.
  pub run-spec_run :
      (cs : List (Call K V)) (m : List (K × V)) (f : Spec K V)
      → ((j : K) → find j m ≡ f j)
      → ((run cs m).0 ≡ (spec_run cs f).0) × ((j : K) → find j (run cs m).1 ≡ (spec_run cs f).1 j)
  unfolding run
  run-spec_run [] m f h = (refl, h)
  run-spec_run (c ∷ cs) m f h =
      let (told, after) = call-spec_call c m f h in
      let rest = run-spec_run cs (call c m).1 (spec_call c f).1 after in
      (ap₂ ◌∷◌ told rest.0, rest.1)

  call-IsMap : (c : Call K V) (m : List (K × V)) → IsMap m → IsMap (call c m).1
  unfolding call
  call-IsMap (puts k v oldval) m h = ground (arith, insert-IsMap k v m)
  call-IsMap (removes k) m h = ground (arith, erase-IsMap k m)
  call-IsMap (takes k v) m h = ground (arith, erase-IsMap k m)
  call-IsMap (gets k v) m h = h
  call-IsMap (asks k) m h = h

  -- And the keys of the map stay distinct.
  pub run-IsMap : (cs : List (Call K V)) (m : List (K × V)) → IsMap m → IsMap (run cs m).1
  unfolding run
  run-IsMap [] m h = h
  run-IsMap (c ∷ cs) m h = run-IsMap cs (call c m).1 (call-IsMap c m h)
