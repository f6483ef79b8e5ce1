-- ===== src/Remoting/ResponseFuture/Routing.antt =====
-- remoting/ResponseFuture.cpp: which request a future belongs to.
use kiteq_client_cpp.Base.{
  ℕ, zero, suc, ◌+◌, ◌<◌, ◌≡◌, refl, sym, ap, ◌∙◌, inl, inr, List, [], ◌∷◌, some, ◌==◌, ==_refl,
  length, get_elem?, arith, Option-cases, if◌then◌else◌,
}
use kiteq_client_cpp.Base.Dict.{nat_eq, find}
use kiteq_client_cpp.Remoting.ResponseFuture.{
  KiteResponse, Store, new_future, response_future_used, receive_response, set_response, give_up,
  Step, request, respond, expire, step, run, no_futures,
}
use kiteq_client_cpp.Remoting.ResponseFuture.Invariant.{no_futures-Inv, run-Inv, value-run}

module _ {M : Type 0} where
  -- The ids of the requests, in their order.
  abbrev pub ids : List (Step M) → List ℕ
  ids [] = []
  ids (request id ∷ es) = id ∷ ids es
  ids (respond resp ∷ es) = ids es
  ids (expire p ∷ es) = ids es

  -- A response or a timeout makes no future and changes the id of none.
  respond-fixed :
      (resp : KiteResponse M) (s : Store M)
      → ((step (respond resp) s).next ≡ s.next)
        × ((step (respond resp) s).request_id ≡ s.request_id)
  unfolding step receive_response set_response
  respond-fixed resp s = elim (Option-cases (find resp.request_id s.future_map)) [
    | inl absent ↦ rw (absent, step) (refl, refl)
    | inr (p, present) ↦ elim (Option-cases (s.value p)) [
      | inl unset ↦ rw (present, step) (rw (unset, set_response) (refl, refl))
      | inr (r, set) ↦ rw (present, step) (rw (set, set_response) (refl, refl))
    ]
  ]

  request-new :
      (id : ℕ) (s : Store M)
      → ((step (request id) s).next ≡ suc s.next)
        × ((p : ℕ)
            → (step (request id) s).request_id p ≡ (if s.next == p then id else s.request_id p))
  unfolding step new_future response_future_used
  request-new id s = ground arith

  run-next : (es : List (Step M)) (s : Store M) → (run es s).next ≡ s.next + length (ids es)
  unfolding run
  run-next [] s = omega arith
  run-next (request id ∷ es) s =
      omega (arith, run-next es (step (request id) s), (request-new id s).0)
  run-next (respond resp ∷ es) s =
      run-next es (step (respond resp) s) ∙ ap (λ n. n + length (ids es)) (respond-fixed resp s).0
  run-next (expire p ∷ es) s = run-next es (step (expire p) s) ∙ (unfold step give_up in refl)

  -- A future that exists keeps its id.
  run-request_id :
      (es : List (Step M)) (s : Store M) (p : ℕ)
      → p < s.next
      → (run es s).request_id p ≡ s.request_id p
  unfolding run
  run-request_id [] s p below = refl
  run-request_id (request id ∷ es) s p below =
      let (more, others) = request-new id s in
      run-request_id es (step (request id) s) p (omega (arith, more)) ∙ ground (arith, others p)
  run-request_id (respond resp ∷ es) s p below =
      let (same, own) = respond-fixed resp s in
      run-request_id es (step (respond resp) s) p (omega (arith, same)) ∙ ap (λ f. f p) own
  run-request_id (expire q ∷ es) s p below =
      run-request_id es (step (expire q) s) p (unfold step give_up in below)
      ∙ (unfold step give_up in refl)

  -- The future that the request number i makes has that request's id.
  run-ids :
      (es : List (Step M)) (s : Store M) (i : ℕ)
      → i < length (ids es)
      → get_elem? (ids es) i ≡ some ((run es s).request_id (s.next + i))
  unfolding run
  run-ids [] s i below = absurd (omega arith)
  run-ids (request id ∷ es) s zero below =
      let (more, others) = request-new id s in
      let kept = run-request_id es (step (request id) s) s.next (omega (arith, more)) in
      let own : (run es (step (request id) s)).request_id (s.next + 0) ≡ id =
        ap (λ n. (run es (step (request id) s)).request_id n) (omega arith)
        ∙ kept
        ∙ ground (arith, others s.next, ==_refl s.next) in
      ap some (sym own)
  run-ids (request id ∷ es) s (suc i) below =
      let (more, _) = request-new id s in
      let s1 = step (request id) s in
      let ih = run-ids es s1 i (omega arith) in
      ih ∙ ap (λ n. some ((run es s1).request_id n)) (omega (arith, more))
  run-ids (respond resp ∷ es) s i below =
      let (same, _) = respond-fixed resp s in
      let s1 = step (respond resp) s in
      run-ids es s1 i below ∙ ap (λ n. some ((run es s1).request_id n)) (omega (arith, same))
  run-ids (expire p ∷ es) s i below =
      run-ids es (step (expire p) s) i below ∙ (unfold step give_up in refl)

  -- Whatever the threads have done, in whatever order, a value that the future number p has is
  -- a response with the id that request number p was made under.
  pub value-ids :
      (es : List (Step M)) (p : ℕ) (r : KiteResponse M)
      → (run es no_futures).value p ≡ some r
      → get_elem? (ids es) p ≡ some r.request_id
  value-ids es p r set =
      let below = ((run-Inv es no_futures no_futures-Inv).routed p r set).below in
      let fresh : (no_futures {M = M}).next ≡ 0 = unfold no_futures in refl in
      let inside : p < length (ids es) = omega (arith, below, run-next es no_futures, fresh) in
      run-ids es no_futures p inside
      ∙ ap (λ n. some ((run es no_futures).request_id n)) (omega (arith, fresh))
      ∙ ap some (sym (value-run es p r set))
