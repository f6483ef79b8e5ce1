-- ===== src/Remoting/Connect/Status.antt =====
-- remoting/asioKiteIOClient.cpp: what `start` and `reconnect` do to the status over several calls.
use kiteq_client_cpp.Base.{
  ℕ, zero, suc, ◌+◌, ◌<◌, ◌≡◌, ◌≢◌, refl, sym, ap, ◌∙◌, ◌⊎◌, inl, inr, Bool, true, false, some,
  Option-cases, ◌==◌, arith, Bool-cases, if◌then◌else◌, subst,
}
use native.Mathlib.Decide.{ℕ_discrete}
use kiteq_client_cpp.ByteBuf.{Platform}
use kiteq_client_cpp.Protocol.{Codec}
use kiteq_client_cpp.Messages.ConnMeta.{ConnMeta}
use kiteq_client_cpp.Remoting.Calls.{handshake}
use kiteq_client_cpp.Commons.HostPort.{HostPort}
use kiteq_client_cpp.KitePacket.{Header, Outcome, done, fault, out_of_fuel, ◌>>=◌}
use kiteq_client_cpp.KitePacket.Outcomes.{fault-not-done}
use kiteq_client_cpp.Commons.Counter.{compare_and_set, set_count}
use kiteq_client_cpp.Remoting.Heartbeat.{reset}
use kiteq_client_cpp.Remoting.Client.{
  Client, none_state, prepare, running, reconnecting, recovering, stop, async_resolve,
}
use kiteq_client_cpp.Remoting.Connect.{
  Others, after_connect, after_start, reconnect0, connect_loop, start, reconnect_with, reconnect,
}
use kiteq_client_cpp.Remoting.Connect.Loop.{
  attempts, AllFail, preparing, lost, connect_loop-connects, connect_loop-gives_up, start_used,
  Keeps, asked, attempt, reconnect0_lem,
}

module _ {M : Type 0} where
  -- The other threads never set the status to k.
  abbrev pub Avoid : ℕ → Others M → Type 0
  Avoid k others = (n : ℕ) (c : Client M) → c.status ≢ k → (others n c).status ≢ k

  -- What `start` has returned, once it has returned.
  abbrev returned : Outcome (Bool × Client M) → Client M → Client M
  returned (done (ok, c)) d = c
  returned fault d = d
  returned out_of_fuel d = d

  connect_loop-Avoid :
      (k fuel n : ℕ) (others : Others M) (c c' : Client M) (ok : Bool)
      → Avoid k others
      → c.status ≢ k
      → connect_loop fuel n others c ≡ done (ok, c')
      → c'.status ≢ k
  unfolding connect_loop reconnect0 async_resolve
  connect_loop-Avoid k zero n others c c' ok keep h e = cc
  connect_loop-Avoid k (suc fuel) n others c0 c' ok keep h e = elim (Option-cases c0.host_port) [
    | inl null ↦ absurd (fault-not-done (rw null at e))
    | inr (hp, known) ↦
        let c1 = attempt hp others (n + 1) c0 in
        let kept = keep (n + 1) (asked hp c0) h in
        ground (
          arith,
          reconnect0_lem (n + 1) hp others c0 known,
          kept,
          connect_loop-Avoid k fuel (n + 1) others c1 c' ok keep kept,
        )
  ]

  -- Whether or not a heartbeat thread is started, the status is the loop's.
  after_start-done :
      (o : Outcome (Bool × Client M)) (c' : Client M) (ok : Bool)
      → (o >>= λ t. done (after_start t)) ≡ done (ok, c')
      → (c1 : Client M) × (o ≡ done (ok, c1)) × (c1.status ≡ c'.status)
  unfolding after_start
  after_start-done (done (true, c1)) c' ok e = (c1, cc, ap (λ r. (returned r c1).status) e)
  after_start-done (done (false, c1)) c' ok e = (c1, cc, ap (λ r. (returned r c1).status) e)
  after_start-done fault c' ok e = absurd (fault-not-done e)
  after_start-done out_of_fuel c' ok e = cc

  pub start-Avoid :
      (k : ℕ) (others : Others M) (c c' : Client M) (ok : Bool)
      → k ≢ prepare
      → Avoid k others
      → (c.status ≡ none_state) ⊎ (c.status ≢ k)
      → start others c ≡ done (ok, c')
      → c'.status ≢ k
  unfolding start compare_and_set
  start-Avoid k others c c' ok other keep h e = elim (Bool-cases (c.status == none_state)) [
    | inl fresh ↦
        let (c1, looped, same) =
          after_start-done (connect_loop 10 0 others (preparing c)) c' ok (rw fresh at e) in
        subst (λ x. x ≢ k) same
          (connect_loop-Avoid k 10 0 others (preparing c) c1 ok keep (λ z. other (sym z)) looped)
    | inr used ↦
        let same : c ≡ c' = ap (λ r. returned r c) (rw used at e) in
        subst (λ x. x.status ≢ k) same (elim h [ inl z ↦ absurd (ground arith) | inr n ↦ n ])
  ]

  -- After a call of `start` that returned, true or false, the next one returns false and changes
  -- nothing, if nobody sets the status `NONE` while the first one sleeps.
  pub start_again :
      (first second : Others M) (c c' : Client M) (ok : Bool)
      → Avoid none_state first
      → start first c ≡ done (ok, c')
      → start second c' ≡ done (false, c')
  start_again first second c c' ok keep e =
      let other : none_state ≢ prepare = λ z. absurd (omega (arith, z)) in
      let either : (c.status ≡ none_state) ⊎ (c.status ≢ none_state) =
        elim (ℕ_discrete c.status none_state) [ yes z ↦ inl z | no n ↦ inr n ] in
      start_used second c' (start-Avoid none_state first c c' ok other keep either e)

  attempts-status :
      (hp : HostPort) (others : Others M) (n k : ℕ) (c : Client M)
      → ((i : ℕ) (x : Client M) → (others i x).status ≡ x.status)
      → (attempts hp others n k c).status ≡ c.status
  attempts-status hp others n zero c still = refl
  attempts-status hp others n (suc k) c still =
      attempts-status hp others (n + 1) k (attempt hp others (n + 1) c) still
      ∙ still (n + 1) (asked hp c)

  pub still-AllFail :
      (hp : HostPort) (others : Others M) (n k : ℕ) (c : Client M)
      → ((i : ℕ) (x : Client M) → (others i x).status ≡ x.status)
      → c.status ≢ recovering
      → c.status ≢ stop
      → AllFail hp others n k c
  still-AllFail hp others n zero c still h1 h2 = tt
  still-AllFail hp others n (suc k) c still h1 h2 =
      let c1 = attempt hp others (n + 1) c in
      let same = still (n + 1) (asked hp c) in
      let g1 : c1.status ≢ recovering = λ z. h1 (sym same ∙ z) in
      let g2 : c1.status ≢ stop = λ z. h2 (sym same ∙ z) in
      (g1, g2, still-AllFail hp others (n + 1) k c1 still g1 g2)

module _ {M : Type 0} (pf : Platform) (codec : Codec M) where
  -- `reconnect` of a running client whose address parsed, if the other threads leave the
  -- address alone, and that one of the ten attempts makes recovering, after others that neither
  -- connected nor stopped it, resets the count of missed heartbeats, does the handshake, and if
  -- that returns, returns its result, with the status running if that is true.
  pub reconnect-connects :
      (k : ℕ) (hp : HostPort) (others : Others M) (of_meta : ConnMeta → M) (status_of : M → Bool)
      (h : Header) (meanwhile : Client M → Outcome (Client M)) (now : ℕ) (c c2 : Client M)
      (ok : Bool)
      → c.status ≡ running
      → c.host_port ≡ some hp
      → Keeps others
      → k < 10
      → AllFail hp others 0 k (lost c)
      → (attempts hp others 0 (suc k) (lost c)).status ≡ recovering
      → let c1 = attempts hp others 0 (suc k) (lost c) in
        handshake pf codec of_meta status_of h meanwhile now
            (record c1 { heartbeat = reset c1.heartbeat })
          ≡ done (ok, c2)
        → reconnect pf codec of_meta status_of others h meanwhile now c
          ≡ done (ok, if ok then record c2 { status = running } else c2)
  unfolding reconnect reconnect_with compare_and_set after_connect set_count
  reconnect-connects k hp others of_meta status_of h meanwhile now c c2 ok was known keep bound fail
        hit shaken =
      let looped =
        connect_loop-connects k 10 0 hp others (lost c) (omega arith) bound known keep fail hit in
      rw (was, reconnect_with, looped, shaken)
        (elim (Bool-cases ok) [ inl e ↦ rw e | inr e ↦ rw e ])

  pub reconnect_refused :
      (others : Others M) (of_meta : ConnMeta → M) (status_of : M → Bool) (h : Header)
      (meanwhile : Client M → Outcome (Client M)) (now : ℕ) (c : Client M)
      → c.status ≢ running
      → reconnect pf codec of_meta status_of others h meanwhile now c ≡ done (false, c)
  unfolding reconnect reconnect_with compare_and_set
  reconnect_refused others of_meta status_of h meanwhile now c idle =
      let not_running : (c.status == running) ≡ false = ground arith in rw not_running

  -- If the other threads leave the status and the address alone while `reconnect` of a running
  -- client whose address parsed makes its ten attempts, it returns false, the status stays
  -- `RECONNECTING`, and the next call of `reconnect` returns false and changes nothing.
  pub reconnect_stuck :
      (hp : HostPort) (first second : Others M) (of_meta : ConnMeta → M) (status_of : M → Bool)
      (h h' : Header) (meanwhile meanwhile' : Client M → Outcome (Client M)) (now now' : ℕ)
      (c : Client M)
      → c.status ≡ running
      → c.host_port ≡ some hp
      → Keeps first
      → ((n : ℕ) (x : Client M) → (first n x).status ≡ x.status)
      → (c' : Client M) × (reconnect pf codec of_meta status_of first h meanwhile now c
          ≡ done (false, c'))
        × (c'.status ≡ reconnecting)
        × (reconnect pf codec of_meta status_of second h' meanwhile' now' c' ≡ done (false, c'))
  unfolding reconnect reconnect_with compare_and_set after_connect
  reconnect_stuck hp first second of_meta status_of h h' meanwhile meanwhile' now now' c was known
        keep still =
      let c' = attempts hp first 0 10 (lost c) in
      let gives_up = connect_loop-gives_up 9 0 hp first (lost c) refl known keep (
        still-AllFail hp first 0 10 (lost c) still (λ z. absurd (omega (arith, z)))
          (λ z. absurd (omega (arith, z)))) in
      let left : c'.status ≡ reconnecting = attempts-status hp first 0 10 (lost c) still in
      let other : c'.status ≢ running = λ z. absurd (omega (arith, z, left)) in
      (
        c',
        rw (was, gives_up),
        left,
        reconnect_refused second of_meta status_of h' meanwhile' now' c' other,
      )
