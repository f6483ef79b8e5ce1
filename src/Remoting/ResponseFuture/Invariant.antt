-- ===== src/Remoting/ResponseFuture/Invariant.antt =====
-- remoting/ResponseFuture.cpp: the invariant of the map of waiting requests, over all interleavings.
use kiteq_client_cpp.Base.{
  ℕ, ◌<◌, ◌≡◌, refl, inl, inr, true, List, [], ◌∷◌, none, some, arith, Option-cases,
}
use kiteq_client_cpp.Base.Dict.{nat_eq, find, erase, find-insert, find-erase}
use kiteq_client_cpp.Remoting.ResponseFuture.{
  KiteResponse, Store, update, new_future, response_future_used, set_response, receive_response,
  give_up, Step, request, respond, expire, step, run, no_futures,
}

module _ {M : Type 0} where
  -- A future that waits under an id exists, was made for that id, and has no value yet.
  pub record IsWaiting (s : Store M) (id p : ℕ) : Type 0 where
    pub below : p < s.next
    pub own_id : s.request_id p ≡ id
    pub unset : s.value p ≡ none

  -- A value is the response to the future's own request.
  pub record IsRouted (s : Store M) (p : ℕ) (r : KiteResponse M) : Type 0 where
    pub below : p < s.next
    pub own_id : r.request_id ≡ s.request_id p

  pub record Inv (s : Store M) : Type 0 where
    pub waiting : (id p : ℕ) → find id s.future_map ≡ some p → IsWaiting s id p
    pub routed : (p : ℕ) (r : KiteResponse M) → s.value p ≡ some r → IsRouted s p r

  pub no_futures-Inv : Inv no_futures
  unfolding no_futures
  no_futures-Inv = record { waiting = λ id p e. cc; routed = λ p r e. cc }

  pub new_future-Inv : (id : ℕ) (s : Store M) → Inv s → Inv (new_future id s).1
  unfolding new_future
  new_future-Inv id s v = record {
    waiting = λ j p e. let w = v.waiting j p e in ground arith;
    routed = λ p r e. ground (arith, v.routed p r);
  }

  pub response_future_used-Inv :
      (p : ℕ) (s : Store M) → p < s.next → s.value p ≡ none → Inv s → Inv (response_future_used p s)
  unfolding response_future_used
  response_future_used-Inv p s below unset v = record {
    waiting = λ j q e. ground (arith, find-insert (s.request_id p) j p s.future_map, v.waiting j q);
    routed = λ q r e. ground (arith, v.routed q r);
  }

  pub give_up-Inv : (p : ℕ) (s : Store M) → Inv s → Inv (give_up p s)
  unfolding give_up
  give_up-Inv p s v = record {
    waiting = λ j q e. ground (arith, find-erase (s.request_id p) j s.future_map, v.waiting j q);
    routed = λ q r e. ground (arith, v.routed q r);
  }

  -- The store once a response has reached the future that waits for it.
  abbrev pub answered : ℕ → KiteResponse M → Store M → Store M
  answered p resp s = record s {
    value = update s.value p (some resp);
    future_map = erase resp.request_id s.future_map;
  }

  pub receive_response_hit :
      (p : ℕ) (resp : KiteResponse M) (s : Store M)
      → find resp.request_id s.future_map ≡ some p
      → s.value p ≡ none
      → receive_response resp s ≡ (true, answered p resp s)
  unfolding receive_response
  receive_response_hit p resp s present unset =
      rw (present, receive_response) (rw (unset, set_response))

  pub receive_response_miss :
      (resp : KiteResponse M) (s : Store M)
      → find resp.request_id s.future_map ≡ none
      → receive_response resp s ≡ (true, s)
  unfolding receive_response
  receive_response_miss resp s absent = rw (absent, receive_response)

  answered-Inv :
      (p : ℕ) (resp : KiteResponse M) (s : Store M)
      → IsWaiting s resp.request_id p
      → Inv s
      → Inv (answered p resp s)
  answered-Inv p resp s w v = record {
    waiting =
        λ j q e. ground (arith, find-erase resp.request_id j s.future_map, v.waiting j q, w.own_id);
    routed = λ q r e. ground (arith, v.routed q r, w.own_id, w.below);
  }

  -- A response finds its future unset, so that `set_value` does not throw; and nothing breaks.
  pub receive_response-Inv :
      (resp : KiteResponse M) (s : Store M)
      → Inv s
      → ((receive_response resp s).0 ≡ true) × Inv (receive_response resp s).1
  receive_response-Inv resp s v = elim (Option-cases (find resp.request_id s.future_map)) [
    | inl absent ↦ rw (receive_response_miss resp s absent) (refl, v)
    | inr (p, present) ↦
        let w = v.waiting resp.request_id p present in
        rw (receive_response_hit p resp s present w.unset) (refl, answered-Inv p resp s w v)
  ]

  pub step-Inv : (e : Step M) (s : Store M) → Inv s → Inv (step e s)
  unfolding step
  step-Inv (request id) s v =
      response_future_used-Inv (new_future id s).0 (new_future id s).1
        (unfold new_future in omega arith) (unfold new_future in ground arith)
        (new_future-Inv id s v)
  step-Inv (respond resp) s v = (receive_response-Inv resp s v).1
  step-Inv (expire p) s v = give_up-Inv p s v

  pub run-Inv : (es : List (Step M)) (s : Store M) → Inv s → Inv (run es s)
  unfolding run
  run-Inv [] s v = v
  run-Inv (e ∷ es) s v = run-Inv es (step e s) (step-Inv e s v)

  -- Whatever the threads have done before, in whatever order, no response makes `set_value`
  -- throw because its promise was set before.
  pub receive_response-run :
      (es : List (Step M)) (resp : KiteResponse M)
      → (receive_response resp (run es no_futures)).0 ≡ true
  receive_response-run es resp =
      (receive_response-Inv resp _ (run-Inv es no_futures no_futures-Inv)).0

  -- A value that a future then has is a response to the id that the future stores.
  pub value-run :
      (es : List (Step M)) (p : ℕ) (r : KiteResponse M)
      → (run es no_futures).value p ≡ some r
      → r.request_id ≡ (run es no_futures).request_id p
  value-run es p r e = ((run-Inv es no_futures no_futures-Inv).routed p r e).own_id

  -- A value, once set, stays.
  pub step-value :
      (e : Step M) (s : Store M) (p : ℕ) (r : KiteResponse M)
      → Inv s
      → s.value p ≡ some r
      → ((step e s).value p ≡ some r) × ((step e s).request_id p ≡ s.request_id p)
  unfolding step new_future response_future_used give_up
  step-value (request id) s p r v set = ground (arith, (v.routed p r set).below)
  step-value (respond resp) s p r v set = elim (Option-cases (find resp.request_id s.future_map)) [
    | inl absent ↦ rw (step, receive_response_miss resp s absent) (set, refl)
    | inr (q, present) ↦
        let w = v.waiting resp.request_id q present in
        rw (step, receive_response_hit q resp s present w.unset) (ground (arith, w.unset))
  ]
  step-value (expire q) s p r v set = (set, refl)
