-- ===== src/Remoting/ResponseFuture.antt =====
-- remoting/ResponseFuture.cpp and remoting/inc/KiteResponse.hpp: requests that wait for a response.
-- A future is a promise that is set once. Futures live in a store; a pointer is a number. The map's
-- lock makes each function below one step.
pub mod Invariant
pub mod Requests
pub mod Routing
use kiteq_client_cpp.Base.{
  ℕ, suc, ◌≡◌, ◌<◌, Bool, true, false, List, [], ◌∷◌, Option, none, some, ◌==◌, if◌then◌else◌,
}
use kiteq_client_cpp.Base.Dict.{nat_eq, find, insert, erase}

-- `KiteResponse`.
pub record KiteResponse (M : Type 0) : Type 0 where
  pub request_id : ℕ
  pub message : M

unfoldable pub new_response : {M : Type 0} → ℕ → M → KiteResponse M
new_response id m = record { request_id = id; message = m }

unfoldable pub response_request_id : {M : Type 0} → KiteResponse M → ℕ
response_request_id r = r.request_id

unfoldable pub response_message : {M : Type 0} → KiteResponse M → M
response_message r = r.message

-- `next` is the first pointer that is not in use; `value` is what a promise was set to.
pub record Store (M : Type 0) : Type 0 where
  pub next : ℕ
  pub request_id : ℕ → ℕ
  pub value : ℕ → Option (KiteResponse M)
  pub future_map : List (ℕ × ℕ)

abbrev pub update {ℓ} : {A : Type ℓ} → (ℕ → A) → ℕ → A → ℕ → A
update f i a j = if i == j then a else f j

module _ {M : Type 0} where
  -- `new ResponseFuture(id)`.
  unfoldable pub new_future : ℕ → Store M → ℕ × Store M
  new_future id s = (
    s.next,
    record s {
      next = suc s.next;
      request_id = update s.request_id s.next id;
      value = update s.value s.next none;
    },
  )

  unfoldable pub get_request_id : ℕ → Store M → ℕ
  get_request_id p s = s.request_id p

  unfoldable pub response_future_used : ℕ → Store M → Store M
  response_future_used p s = elim (find (s.request_id p) s.future_map) [
    | none ↦ record s { future_map = insert (s.request_id p) p s.future_map }
    | some _ ↦ s
  ]

  -- `set_value`; `false`: the promise was set before, and it throws.
  unfoldable pub set_response : ℕ → KiteResponse M → Store M → Bool × Store M
  set_response p resp s = elim (s.value p) [
    | none ↦ (true, record s { value = update s.value p (some resp) })
    | some _ ↦ (false, s)
  ]

  unfoldable pub receive_response : KiteResponse M → Store M → Bool × Store M
  unfolding set_response
  receive_response resp s = elim (find resp.request_id s.future_map) [
    | none ↦ (true, s)
    | some p ↦ set_response p resp (record s { future_map = erase resp.request_id s.future_map })
  ]

  -- `getResponse()`: `none` while the thread waits.
  unfoldable pub await_response : ℕ → Store M → Option (KiteResponse M)
  await_response p s = s.value p

  -- `getResponse(timeout)`, when the wait is over: the value if it is there.
  unfoldable pub has_value : ℕ → Store M → Option (KiteResponse M)
  has_value p s = s.value p

  -- And what it does if it is not.
  unfoldable pub give_up : ℕ → Store M → Store M
  give_up p s = record s { future_map = erase (s.request_id p) s.future_map }

  -- The two steps of `getResponse(timeout)`, with nothing between them.
  unfoldable pub get_response : ℕ → Store M → Option (KiteResponse M) × Store M
  unfolding has_value give_up
  get_response p s = elim (has_value p s) [
    | some resp ↦ (some resp, s)
    | none ↦ (none, give_up p s)
  ]

-- The steps of all threads. A thread that gives up has seen no value before, perhaps some steps ago.
pub data Step (M : Type 0) : Type 0 where
  request : ℕ → Step M
  respond : KiteResponse M → Step M
  expire : ℕ → Step M

unfoldable pub step : {M : Type 0} → Step M → Store M → Store M
unfolding new_future response_future_used receive_response give_up
step (request id) s = let r = new_future id s in response_future_used r.0 r.1
step (respond resp) s = (receive_response resp s).1
step (expire p) s = give_up p s

unfoldable pub run : {M : Type 0} → List (Step M) → Store M → Store M
run [] s = s
run (e ∷ es) s = run es (step e s)

unfoldable pub no_futures : {M : Type 0} → Store M
no_futures = record { next = 0; request_id = λ p. 0; value = λ p. none; future_map = [] }
