-- ===== src/Commons/Atomic.antt =====
-- commons/AtomicInteger.hpp: `Atomic<T>` over a type with an equality test, and `AtomicInteger`, an
-- `int` as its bit pattern. Each result stands before the next value.
use kiteq_client_cpp.Base.{
  ℕ, zero, suc, ◌+◌, ◌%◌, ◌^◌, ◌≤◌, ◌<◌, ◌≡◌, ◌≢◌, ◌↔◌, sym, ap, ◌∙◌, Bool, true, false, not, List,
  [], ◌∷◌, some, get_elem?, ◌==◌, arith, if◌then◌else◌,
}
use mathlib.Core.Option.{some-injective}
use kiteq_client_cpp.Base.Word.{add32, sub32}
use kiteq_client_cpp.Base.Dict.{Eq, nat_eq}

module _ {ℓ} {T : Type ℓ} where
  -- `Atomic()`, with the value that T's own constructor makes, and `Atomic(T)`.
  unfoldable pub new_atomic : T → T
  new_atomic initial = initial

  unfoldable pub atomic_of : T → T
  atomic_of val_ = val_

  unfoldable pub set : T → T → T
  set val_ val = val_

  unfoldable pub get : T → T × T
  get val = (val, val)

  unfoldable pub get_and_set : T → T → T × T
  get_and_set update val = (val, update)

module _ {ℓ} {T : Type ℓ} ⦃e : Eq T⦄ where
  unfoldable pub update_to : T → T → Bool × T
  update_to update val = if not (e.beq val update) then (true, update) else (false, val)

  unfoldable pub compare_and_set : T → T → T → Bool × T
  compare_and_set expect update val = if e.beq val expect then (true, update) else (false, val)

-- `AtomicInteger::MAX_VALUE`, `AtomicInteger()` and `AtomicInteger(int)`.
abbrev pub max_value : ℕ
max_value = 0x7FFFFFFF

unfoldable pub new_integer : ℕ
new_integer = 0

unfoldable pub integer_of : ℕ → ℕ
unfolding atomic_of
integer_of val_ = atomic_of val_

-- `AtomicInteger`'s operators. `++` and `--` before and after the name differ in the result only.
unfoldable pub equals : ℕ → ℕ → Bool
equals comp val = val == comp

unfoldable pub post_increment : ℕ → ℕ × ℕ
post_increment val = (val, add32 val 1)

unfoldable pub pre_increment : ℕ → ℕ × ℕ
pre_increment val = (add32 val 1, add32 val 1)

unfoldable pub post_decrement : ℕ → ℕ × ℕ
post_decrement val = (val, sub32 val 1)

unfoldable pub pre_decrement : ℕ → ℕ × ℕ
pre_decrement val = (sub32 val 1, sub32 val 1)

unfoldable pub add : ℕ → ℕ → ℕ
add delta val = add32 val delta

unfoldable pub subtract : ℕ → ℕ → ℕ
subtract delta val = sub32 val delta

-- In spite of its name this returns the value after the increment.
unfoldable pub get_and_increment : ℕ → ℕ × ℕ
get_and_increment val = (add32 val 1, add32 val 1)

-- `AtomicInteger::compareAndSet`, which hides that of `Atomic` and returns an `int`.
unfoldable pub compare_and_set_int : ℕ → ℕ → ℕ → ℕ × ℕ
compare_and_set_int oldval newval val = if oldval == val then (newval, newval) else (oldval, val)

-- The results of n calls of `getAndIncrement`, in the order in which the threads get the lock.
unfoldable pub take_numbers : ℕ → ℕ → List ℕ
unfolding get_and_increment
take_numbers zero val = []
take_numbers (suc n) val = let r = get_and_increment val in r.0 ∷ take_numbers n r.1

take_numbers_at :
    (n val i : ℕ)
    → i < n
    → val < 2 ^ 32
    → get_elem? (take_numbers n val) i ≡ some ((val + i + 1) % 2 ^ 32)
unfolding take_numbers
take_numbers_at zero val i h small = absurd (omega arith)
take_numbers_at (suc n) val zero h small = ground arith
take_numbers_at (suc n) val (suc i) h small =
    take_numbers_at n (add32 val 1) i (omega arith) (omega arith) ∙ ap some (omega arith)

-- Of at most 2^32 calls of `getAndIncrement` no two return the same number, and the call number
-- i, from 0, returns the first value plus i + 1, in 32 bits: the value after its increment.
pub take_numbers-distinct :
    (n val i j a b : ℕ)
    → n ≤ 2 ^ 32
    → val < 2 ^ 32
    → i < j
    → j < n
    → get_elem? (take_numbers n val) i ≡ some a
    → get_elem? (take_numbers n val) j ≡ some b
    → (a ≢ b) × (a ≡ (val + i + 1) % 2 ^ 32)
take_numbers-distinct n val i j a b bound small lt inside ea eb =
    let a_is : a ≡ (val + i + 1) % 2 ^ 32 =
      some-injective _ _ (sym ea ∙ take_numbers_at n val i (omega arith) small) in
    let b_is : b ≡ (val + j + 1) % 2 ^ 32 =
      some-injective _ _ (sym eb ∙ take_numbers_at n val j inside small) in
    (omega arith, a_is)

-- `AtomicInteger::compareAndSet` returns the new value exactly if it was set, unless the caller
-- expects the very value that it sets; a failure leaves the value.
pub compare_and_set_int_lem :
    (oldval newval val : ℕ)
    → oldval ≢ newval
    → let r = compare_and_set_int oldval newval val in
      ((r.0 ≡ newval) ↔ (val ≡ oldval)) × (r.1 ≡ (if val == oldval then newval else val))
unfolding compare_and_set_int
compare_and_set_int_lem oldval newval val distinct = ground arith

-- Of two threads that race from the same expected value to a new one, the first alone succeeds.
pub compare_and_set-race :
    (v a b : ℕ)
    → a ≢ v
    → let first = compare_and_set v a v in
      let second = compare_and_set v b first.1 in
      (first.0 ≡ true) × (second.0 ≡ false) × (second.1 ≡ a)
unfolding compare_and_set
compare_and_set-race v a b changed = ground arith
