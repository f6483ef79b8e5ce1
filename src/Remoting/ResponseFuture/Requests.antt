-- ===== src/Remoting/ResponseFuture/Requests.antt =====
-- remoting/ResponseFuture.cpp: a request from its registration to its response or its timeout.
use kiteq_client_cpp.Base.{
  ℕ, ◌≡◌, ◌≢◌, refl, ap, inl, inr, true, List, [], ◌∷◌, none, some, ==_refl, arith, Option-cases,
}
use kiteq_client_cpp.Base.Dict.{nat_eq, find, find-insert, find-erase}
use kiteq_client_cpp.Remoting.ResponseFuture.{
  KiteResponse, Store, new_future, response_future_used, receive_response, give_up, get_response,
  Step, request, respond, expire, step, run, no_futures,
}
use kiteq_client_cpp.Remoting.ResponseFuture.Invariant.{
  no_futures-Inv, Inv, answered, receive_response_hit, receive_response_miss, step-Inv, run-Inv,
  step-value,
}

module _ {M : Type 0} where
  -- A step that neither answers request `id` nor gives up a future of that id.
  abbrev pub Spares : ℕ → Store M → Step M → Type 0
  Spares id s (request other) = Unit {0}
  Spares id s (respond resp) = resp.request_id ≢ id
  Spares id s (expire p) = s.request_id p ≢ id

  abbrev pub AllSpare : ℕ → Store M → List (Step M) → Type 0
  AllSpare id s [] = Unit {0}
  AllSpare id s (e ∷ es) = Spares id s e × AllSpare id (step e s) es

  step-find :
      (e : Step M) (s : Store M) (id p : ℕ)
      → Inv s
      → find id s.future_map ≡ some p
      → Spares id s e
      → find id (step e s).future_map ≡ some p
  unfolding step new_future response_future_used give_up
  step-find (request other) s id p v found spared =
      ground (arith, find-insert other id s.next s.future_map)
  step-find (respond resp) s id p v found spared =
      elim (Option-cases (find resp.request_id s.future_map)) [
        | inl absent ↦ rw (step, receive_response_miss resp s absent) found
        | inr (q, present) ↦
            let w = v.waiting resp.request_id q present in
            rw (step, receive_response_hit q resp s present w.unset)
              (ground (arith, find-erase resp.request_id id s.future_map))
      ]
  step-find (expire q) s id p v found spared =
      ground (arith, find-erase (s.request_id q) id s.future_map)

  pub run-find :
      (es : List (Step M)) (s : Store M) (id p : ℕ)
      → Inv s
      → find id s.future_map ≡ some p
      → AllSpare id s es
      → find id (run es s).future_map ≡ some p
  unfolding run
  run-find [] s id p v found spared = found
  run-find (e ∷ es) s id p v found spared =
      run-find es (step e s) id p (step-Inv e s v) (step-find e s id p v found spared.0) spared.1

  run-value :
      (es : List (Step M)) (s : Store M) (p : ℕ) (r : KiteResponse M)
      → Inv s
      → s.value p ≡ some r
      → (run es s).value p ≡ some r
  unfolding run
  run-value [] s p r v set = set
  run-value (e ∷ es) s p r v set =
      run-value es (step e s) p r (step-Inv e s v) (step-value e s p r v set).0

  -- A request whose id nobody waits for yet is registered.
  pub request-find :
      (s : Store M) (id : ℕ)
      → find id s.future_map ≡ none
      → find id (step (request id) s).future_map ≡ some s.next
  unfolding step new_future response_future_used
  request-find s id absent =
      ground (arith, find-insert id id s.next s.future_map, ==_refl id, ==_refl s.next)

  -- The store after some steps and a request, and after more steps and a response.
  abbrev pub requested : List (Step M) → ℕ → Store M
  requested before id = step (request id) (run before no_futures)

  abbrev pub responded : List (Step M) → List (Step M) → KiteResponse M → Store M
  responded before during resp = step (respond resp) (run during (requested before resp.request_id))

  responded-answered :
      (before during : List (Step M)) (resp : KiteResponse M)
      → find resp.request_id (run before no_futures).future_map ≡ none
      → AllSpare resp.request_id (requested before resp.request_id) during
      → let s = run during (requested before resp.request_id) in
        responded before during resp ≡ answered (run before no_futures).next resp s
  unfolding step
  responded-answered before during resp fresh spared =
      let s0 = run before no_futures in
      let s1 = requested before resp.request_id in
      let v1 = step-Inv (request resp.request_id) s0 (run-Inv before no_futures no_futures-Inv) in
      let found = run-find during s1 resp.request_id s0.next v1 (request-find s0 _ fresh) spared in
      let w = (run-Inv during s1 v1).waiting resp.request_id s0.next found in
      ap (λ r. r.1) (receive_response_hit s0.next resp (run during s1) found w.unset)

  pub get_response-some :
      (p : ℕ) (s : Store M) (r : KiteResponse M)
      → s.value p ≡ some r
      → get_response p s ≡ (some r, s)
  unfolding get_response
  get_response-some p s r e = rw (e, get_response)

  respond_hit :
      (p : ℕ) (resp : KiteResponse M) (s : Store M)
      → find resp.request_id s.future_map ≡ some p
      → s.value p ≡ none
      → step (respond resp) s ≡ answered p resp s
  unfolding step
  respond_hit p resp s found unset = ap (λ r. r.1) (receive_response_hit p resp s found unset)

  pub respond_miss :
      (resp : KiteResponse M) (s : Store M)
      → find resp.request_id s.future_map ≡ none
      → step (respond resp) s ≡ s
  unfolding step
  respond_miss resp s absent = ap (λ r. r.1) (receive_response_miss resp s absent)

  expire_lem : (p : ℕ) (s : Store M) → step (expire p) s ≡ give_up p s
  unfolding step
  expire_lem p s = refl

  -- After any steps of the threads, a request under an id that nobody waits for gets its
  -- response: if nobody answers or gives up that id before the response comes, then
  -- `getResponse` of its future returns the response whatever happens later, and another
  -- response for the id is ignored.
  pub request-get_response :
      (before during later : List (Step M)) (resp again : KiteResponse M)
      → find resp.request_id (run before no_futures).future_map ≡ none
      → AllSpare resp.request_id (requested before resp.request_id) during
      → again.request_id ≡ resp.request_id
      → (get_response (run before no_futures).next (run later (responded before during resp))
          ≡ (some resp, run later (responded before during resp)))
        × (receive_response again (responded before during resp)
            ≡ (true, responded before during resp))
  request-get_response before during later resp again fresh spared same =
      let s0 = run before no_futures in
      let s1 = requested before resp.request_id in
      let s2 = responded before during resp in
      let s = run during s1 in
      let v2 = step-Inv (respond resp) s (
        run-Inv during s1
          (step-Inv (request resp.request_id) s0 (run-Inv before no_futures no_futures-Inv))) in
      let hit = responded-answered before during resp fresh spared in
      let set : s2.value s0.next ≡ some resp = rw hit (ground (arith, ==_refl s0.next)) in
      let gone : find again.request_id s2.future_map ≡ none =
        rw
          (
            hit,
            same,
            find-erase resp.request_id resp.request_id s.future_map,
            ==_refl resp.request_id,
          )
          refl in
      (
        get_response-some s0.next _ resp (run-value later s2 s0.next resp v2 set),
        receive_response_miss again s2 gone,
      )

  -- A response that comes after its request has timed out is ignored, and `getResponse` has returned
  -- null.
  pub get_response-late :
      (p : ℕ) (s : Store M) (resp : KiteResponse M)
      → s.value p ≡ none
      → resp.request_id ≡ s.request_id p
      → ((get_response p s).0 ≡ none)
        × (receive_response resp (get_response p s).1 ≡ (true, (get_response p s).1))
  unfolding get_response
  get_response-late p s resp unset same =
      rw (unset, get_response)
        (
          refl,
          receive_response_miss resp (give_up p s) (
              unfold give_up in
              rw (
                same,
                find-erase (s.request_id p) (s.request_id p) s.future_map,
                ==_refl (s.request_id p),
              )),
        )

  pub request_known :
      (id q : ℕ) (s : Store M)
      → find id s.future_map ≡ some q
      → step (request id) s ≡ (new_future id s).1
  unfolding step response_future_used new_future
  request_known id q s found = ground (arith, ==_refl s.next)

  -- In a valid store a request under an id that another one waits for is not answered: the
  -- response for the id goes to the first of them. When the second one times out before it, the
  -- first one is not answered either.
  pub request_collision :
      (s : Store M) (q : ℕ) (resp : KiteResponse M)
      → Inv s
      → find resp.request_id s.future_map ≡ some q
      → ((step (respond resp) (step (request resp.request_id) s)).value s.next ≡ none)
        × ((step (respond resp) (step (request resp.request_id) s)).value q ≡ some resp)
        × ((step (respond resp) (step (expire s.next) (step (request resp.request_id) s))).value q
            ≡ none)
  request_collision s q resp v found =
      let id = resp.request_id in
      let s1 = (new_future id s).1 in
      let w = v.waiting id q found in
      let known = request_known id q s found in
      let found1 : find id s1.future_map ≡ some q = unfold new_future in found in
      let unset1 : s1.value q ≡ none = unfold new_future in ground (arith, w.below, w.unset) in
      let hit = respond_hit q resp s1 found1 unset1 in
      let gone : find id (give_up s.next s1).future_map ≡ none =
        unfold give_up new_future in
        ground (arith, find-erase id id s.future_map, ==_refl id, ==_refl s.next) in
      (
        rw (known, hit) (unfold new_future in ground (arith, w.below, ==_refl s.next)),
        rw (known, hit) (ground (arith, ==_refl q)),
        rw (known, expire_lem s.next s1, respond_miss resp (give_up s.next s1) gone)
            (unfold give_up in unset1),
      )
