-- ===== src/Commons/Counter.antt =====
-- commons/Counter.hpp and commons/KiteStats.hpp: a `long` behind a lock, as its bit pattern.
use kiteq_client_cpp.Base.{
  ℕ, ◌+◌, ◌%◌, ◌^◌, ◌≤◌, ◌<◌, ◌≡◌, refl, Bool, true, false, List, [], ◌∷◌, Option, none, some, ◌++◌,
  ◌==◌, ==_iff, subst, arith, if◌then◌else◌, Bool-cases, inl, inr,
}
use kiteq_client_cpp.Base.Word.{add64}

-- `Counter()` and `Counter(long c)`.
unfoldable pub new_counter : ℕ
new_counter = 0

unfoldable pub counter_of : ℕ → ℕ
counter_of c = c

unfoldable pub inc : ℕ → ℕ × ℕ
inc v = (add64 v 1, add64 v 1)

-- In spite of its name this returns the value after the increment.
unfoldable pub get_and_increment : ℕ → ℕ × ℕ
get_and_increment v = (add64 v 1, add64 v 1)

unfoldable pub get_count : ℕ → ℕ × ℕ
get_count v = (v, v)

unfoldable pub set_count : ℕ → ℕ → ℕ
set_count n v = n

unfoldable pub compare_and_set : ℕ → ℕ → ℕ → Bool × ℕ
compare_and_set expval newval v = if v == expval then (true, newval) else (false, v)

-- `getCountChange`: read, then reset to 0 if nothing has come in between; otherwise again. Each
-- number is what the other threads add between the two steps of a round; what is left of them comes
-- after the call. `none`: the rounds that are given were not enough.
unfoldable pub get_count_change : List ℕ → ℕ → Option (ℕ × ℕ × List ℕ)
unfolding compare_and_set get_count
get_count_change [] v = none
get_count_change (n ∷ ns) v =
    let c = (get_count v).0 in
    let r = compare_and_set c 0 (add64 v n) in
    let again = get_count_change ns r.1 in if r.0 then some (c, r.1, ns) else again

-- `KiteStats`: two static counters. `start` and `close` do nothing.
pub record KiteStats : Type 0 where
  pub read_counter : ℕ
  pub write_counter : ℕ

unfoldable pub new_stats : KiteStats
unfolding new_counter
new_stats = record { read_counter = new_counter; write_counter = new_counter }

unfoldable pub start_stats : KiteStats → KiteStats
start_stats s = s

unfoldable pub close_stats : KiteStats → KiteStats
close_stats s = s

unfoldable pub record_read : KiteStats → KiteStats
unfolding inc
record_read s = record s { read_counter = (inc s.read_counter).1 }

unfoldable pub record_write : KiteStats → KiteStats
unfolding inc
record_write s = record s { write_counter = (inc s.write_counter).1 }

abbrev pub sum : List ℕ → ℕ
sum [] = 0
sum (n ∷ ns) = n + sum ns

-- What was added before the reset of a call that took `left` fewer rounds than it was given.
abbrev pub Counted : ℕ → List ℕ → Option (ℕ × ℕ × List ℕ) → Type 0
Counted v ns none = Unit {0}
Counted v ns (some (c, v', left)) =
    (v' ≡ 0) × (sum left ≤ sum ns) × ((c + sum left) % 2 ^ 64 ≡ (v + sum ns) % 2 ^ 64)

Counted-cons :
    (v n : ℕ) (ns : List ℕ) (r : Option (ℕ × ℕ × List ℕ))
    → Counted (add64 v n) ns r
    → Counted v (n ∷ ns) r
Counted-cons v n ns none h = tt
Counted-cons v n ns (some (c, v', left)) h = (h.0, omega (arith, h.1), omega (arith, h.2))

-- What a call returns, with what comes after it, is the counter's value with all that was added.
get_count_change-Counted : (ns : List ℕ) (v : ℕ) → v < 2 ^ 64 → Counted v ns (get_count_change ns v)
unfolding get_count_change compare_and_set
get_count_change-Counted [] v h = tt
get_count_change-Counted (n ∷ ns) v h = elim (Bool-cases (add64 v n == v)) [
  | inl same ↦ rw same (refl, omega arith, omega (arith, (==_iff (add64 v n) v).0 same))
  | inr other ↦ rw other (
      Counted-cons v n ns (get_count_change ns (add64 v n))
        (get_count_change-Counted ns (add64 v n) (omega arith)))
]

get_count_change-ends :
    (before after : List ℕ) (v : ℕ)
    → v < 2 ^ 64
    → (c : ℕ) × (left : List ℕ) × (get_count_change (before ++ 0 ∷ after) v ≡ some (c, 0, left))
unfolding get_count_change compare_and_set
get_count_change-ends [] after v h =
    let same : (add64 v 0 == v) ≡ true = ground arith in (v, after, rw same)
get_count_change-ends (n ∷ before) after v h = elim (Bool-cases (add64 v n == v)) [
  | inl same ↦ (v, before ++ 0 ∷ after, rw same)
  | inr other ↦
      let (c, left, e) = get_count_change-ends before after (add64 v n) (omega arith) in
      (c, left, rw other e)
]

-- `getCountChange` of a 64-bit counter returns at the latest in the first round in which nobody
-- adds anything. It leaves the counter at 0, and no increment is lost or counted twice: what it
-- returns, with what is added after it, is modulo 2^64 the counter's value with all that the
-- other threads add.
pub get_count_change-total :
    (before after : List ℕ) (v : ℕ)
    → v < 2 ^ 64
    → (c : ℕ) × (left : List ℕ) × (get_count_change (before ++ 0 ∷ after) v ≡ some (c, 0, left))
      × ((c + sum left) % 2 ^ 64 ≡ (v + sum (before ++ 0 ∷ after)) % 2 ^ 64)
get_count_change-total before after v h =
    let (c, left, e) = get_count_change-ends before after v h in
    let counted : Counted v (before ++ 0 ∷ after) (some (c, 0, left)) =
      subst (Counted v (before ++ 0 ∷ after)) e
        (get_count_change-Counted (before ++ 0 ∷ after) v h) in
    (c, left, e, counted.2)
