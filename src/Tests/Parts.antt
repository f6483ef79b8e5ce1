-- ===== src/Tests/Parts.antt =====
-- The theorems of the common parts at concrete inputs.
use kiteq_client_cpp.Base.{
  ℕ, ◌+◌, ◌%◌, ◌^◌, ◌≡◌, ◌≢◌, ◌⊎◌, refl, List, [], ◌∷◌, none, some, arith, get_elem?,
}
use kiteq_client_cpp.Base.Dict.{nat_eq, bytes_eq, find}
use kiteq_client_cpp.Commons.Counter.{get_count_change, sum, get_count_change-total}
use kiteq_client_cpp.Commons.Atomic.{take_numbers, take_numbers-distinct}
use kiteq_client_cpp.Commons.ConcurrentMap.{puts, removes, gets, Call, spec_run, run, run-spec_run}
use kiteq_client_cpp.Commons.HostPort.{HostPort, parse}
use kiteq_client_cpp.Commons.HostPort.Laws.{count, parse_iff}
use kiteq_client_cpp.Commons.HostPort.{is_colon}
use kiteq_client_cpp.Tests.Data.{boost_split}

get_count_change-total_example :
    (c : ℕ) × (left : List ℕ) × (get_count_change (3 ∷ 0 ∷ 4 ∷ []) 10 ≡ some (c, 0, left))
    × ((c + sum left) % 2 ^ 64 ≡ 17)
get_count_change-total_example = get_count_change-total (3 ∷ []) (4 ∷ []) 10 (omega arith)

abbrev first_result : ℕ
first_result = 0

abbrev third_result : ℕ
third_result = 2

numbered : (take_numbers 3 0xFFFFFFFF ≡ 0 ∷ 1 ∷ 2 ∷ [])
unfolding take_numbers
numbered = refl

first_number : get_elem? (take_numbers 3 0xFFFFFFFF) 0 ≡ some 0
first_number = rw numbered

third_number : get_elem? (take_numbers 3 0xFFFFFFFF) 2 ≡ some 2
third_number = rw numbered

take_numbers-distinct_example :
    (first_result ≢ third_result) × (first_result ≡ (0xFFFFFFFF + 0 + 1) % 2 ^ 32)
take_numbers-distinct_example =
    take_numbers-distinct 3 0xFFFFFFFF 0 2 0 2 (omega arith) (omega arith) (omega arith)
      (omega arith) first_number third_number

abbrev calls : List (Call ℕ ℕ)
calls = puts 1 10 0 ∷ puts 1 11 0 ∷ removes 2 ∷ gets 1 0 ∷ []

run-spec_run_example :
    ((run calls []).0 ≡ (spec_run calls (λ k. none)).0)
    × ((j : ℕ) → find j (run calls []).1 ≡ (spec_run calls (λ k. none)).1 j)
run-spec_run_example = run-spec_run calls [] (λ k. none) (λ k. refl)

abbrev text : List ℕ
text = b':' ∷ b'9' ∷ []

parse_iff_example :
    ((count is_colon text ≢ 1) × (parse boost_split text ≡ none))
    ⊎ ((count is_colon text ≡ 1)
        × ((hp : HostPort) × (parse boost_split text ≡ some hp) × (hp.host ≢ []) × (hp.port ≢ [])))
parse_iff_example = parse_iff boost_split text
