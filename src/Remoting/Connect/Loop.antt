-- ===== src/Remoting/Connect/Loop.antt =====
-- remoting/asioKiteIOClient.cpp: the ten attempts of `start` and `reconnect`, and what they leave.
use kiteq_client_cpp.Base.{
  ℕ, zero, suc, ◌+◌, ◌<◌, ◌≡◌, ◌≢◌, refl, ◌∙◌, inl, inr, Bool, true, false, ◌||◌, List, [], ◌∷◌,
  ◌⊎◌, ◌++◌, Option, some, none, Option-cases, ◌==◌, leb, arith, Bool-cases, le→leb, lt→leb,
}
use kiteq_client_cpp.KitePacket.{done, fault}
use kiteq_client_cpp.Session.{Session}
use kiteq_client_cpp.Commons.Counter.{KiteStats, compare_and_set}
use kiteq_client_cpp.Commons.HostPort.{Splitter, HostPort, server_address}
use kiteq_client_cpp.Remoting.ResponseFuture.{Store}
use kiteq_client_cpp.Remoting.Heartbeat.{set_parent, start_thread}
use kiteq_client_cpp.Remoting.Client.{
  Client, none_state, prepare, new_client, reconnecting, recovering, stop, async_resolve,
}
use kiteq_client_cpp.Remoting.Connect.{Others, after_start, reconnect0, connect_loop, start}

module _ {M : Type 0} where
  -- The other threads leave the address alone, as all the client's code does.
  abbrev pub Keeps : Others M → Type 0
  Keeps others = (n : ℕ) (c : Client M) → (others n c).host_port ≡ c.host_port

  -- The client that has asked the resolver, and after an attempt's sleep.
  abbrev pub asked : HostPort → Client M → Client M
  asked hp c = record c { io = record c.io { resolving = c.io.resolving ++ hp ∷ [] } }

  abbrev pub attempt : HostPort → Others M → ℕ → Client M → Client M
  attempt hp others n c = others n (asked hp c)

  -- The client after the next k attempts, the first of which is number n + 1.
  abbrev pub attempts : HostPort → Others M → ℕ → ℕ → Client M → Client M
  attempts hp others n zero c = c
  attempts hp others n (suc k) c = attempts hp others (n + 1) k (attempt hp others (n + 1) c)

  -- After none of the next k attempts is the client recovering or stopped.
  abbrev pub AllFail : HostPort → Others M → ℕ → ℕ → Client M → Type 0
  AllFail hp others n zero c = Unit {0}
  AllFail hp others n (suc k) c =
      ((attempt hp others (n + 1) c).status ≢ recovering)
      × ((attempt hp others (n + 1) c).status ≢ stop)
      × AllFail hp others (n + 1) k (attempt hp others (n + 1) c)

  pub reconnect0_lem :
      (n : ℕ) (hp : HostPort) (others : Others M) (c : Client M)
      → c.host_port ≡ some hp
      → reconnect0 n others c ≡ done (true, attempt hp others n c)
  unfolding reconnect0 async_resolve
  reconnect0_lem n hp others c known = rw known

  -- The loop returns within ten attempts, and tells by its result whether the client is recovering.
  pub connect_loop-total :
      (fuel n : ℕ) (hp : HostPort) (others : Others M) (c : Client M)
      → n + fuel ≡ 10
      → 0 < fuel
      → c.host_port ≡ some hp
      → Keeps others
      → (ok : Bool) × (c' : Client M) × (connect_loop fuel n others c ≡ done (ok, c'))
        × ((c'.status == recovering) ≡ ok)
  unfolding connect_loop
  connect_loop-total zero n hp others c e pos known keep = absurd (omega arith)
  connect_loop-total (suc fuel) n hp others c0 e pos known keep =
      let c = attempt hp others (n + 1) c0 in
      let tried = reconnect0_lem (n + 1) hp others c0 known in
      elim (Bool-cases (c.status == recovering)) [
        | inl hit ↦ (true, c, rw (tried, hit), hit)
        | inr miss ↦ elim (Bool-cases (leb 10 (n + 1) || c.status == stop)) [
          | inl out ↦ (false, c, rw (tried, miss, out), miss)
          | inr more ↦
              let (ok, c', e', flag) =
                connect_loop-total fuel (n + 1) hp others c (omega arith) (ground arith)
                  (keep (n + 1) (asked hp c0) ∙ known) keep in
              (ok, c', rw (tried, miss, more) e', flag)
        ]
      ]

  -- The first attempt after which the client is recovering ends the loop, if none before stopped it.
  pub connect_loop-connects :
      (k fuel n : ℕ) (hp : HostPort) (others : Others M) (c : Client M)
      → n + k < 10
      → k < fuel
      → c.host_port ≡ some hp
      → Keeps others
      → AllFail hp others n k c
      → (attempts hp others n (suc k) c).status ≡ recovering
      → connect_loop fuel n others c ≡ done (true, attempts hp others n (suc k) c)
  unfolding connect_loop
  connect_loop-connects k zero n hp others c bound enough known keep fail hit = absurd (omega arith)
  connect_loop-connects zero (suc fuel) n hp others c bound enough known keep fail hit =
      rw (reconnect0_lem (n + 1) hp others c known, hit)
  connect_loop-connects (suc k) (suc fuel) n hp others c bound enough known keep fail hit =
      let c1 = attempt hp others (n + 1) c in
      let not_yet : (c1.status == recovering) ≡ false = ground (arith, fail.0) in
      let not_stop : (c1.status == stop) ≡ false = ground (arith, fail.1) in
      rw
        (
          reconnect0_lem (n + 1) hp others c known,
          not_yet,
          not_stop,
          lt→leb 10 (n + 1) (omega arith),
        )
        (connect_loop-connects k fuel (n + 1) hp others c1 (omega arith) (omega arith)
          (keep (n + 1) (asked hp c) ∙ known) keep fail.2 hit)

  -- After ten attempts that fail the loop gives up.
  pub connect_loop-gives_up :
      (fuel n : ℕ) (hp : HostPort) (others : Others M) (c : Client M)
      → n + suc fuel ≡ 10
      → c.host_port ≡ some hp
      → Keeps others
      → AllFail hp others n (suc fuel) c
      → connect_loop (suc fuel) n others c ≡ done (false, attempts hp others n (suc fuel) c)
  unfolding connect_loop
  connect_loop-gives_up zero n hp others c e known keep fail =
      let c1 = attempt hp others (n + 1) c in
      let not_yet : (c1.status == recovering) ≡ false = ground (arith, fail.0) in
      rw (reconnect0_lem (n + 1) hp others c known, not_yet, le→leb 10 (n + 1) (omega arith))
  connect_loop-gives_up (suc fuel) n hp others c e known keep fail =
      let c1 = attempt hp others (n + 1) c in
      let not_yet : (c1.status == recovering) ≡ false = ground (arith, fail.0) in
      let not_stop : (c1.status == stop) ≡ false = ground (arith, fail.1) in
      rw
        (
          reconnect0_lem (n + 1) hp others c known,
          not_yet,
          not_stop,
          lt→leb 10 (n + 1) (omega arith),
        )
        (connect_loop-gives_up fuel (n + 1) hp others c1 (omega arith)
          (keep (n + 1) (asked hp c) ∙ known) keep fail.2)

  -- A client that has not been started begins its attempts in the state `prepare`.
  abbrev pub preparing : Client M → Client M
  preparing c = record c { status = prepare; heartbeat = set_parent c.heartbeat }

  abbrev pub lost : Client M → Client M
  lost c = record c { status = reconnecting }

  -- `start` of a client that has not been started and whose address parsed, if the other
  -- threads leave the address alone, returns true as soon as one of its ten attempts, after
  -- others that neither connected nor stopped the client, has made it recovering; each attempt
  -- has asked the resolver, and the heartbeat has one thread more than that attempt left.
  pub start-connects :
      (k : ℕ) (hp : HostPort) (others : Others M) (c : Client M)
      → c.status ≡ none_state
      → c.host_port ≡ some hp
      → Keeps others
      → k < 10
      → AllFail hp others 0 k (preparing c)
      → (attempts hp others 0 (suc k) (preparing c)).status ≡ recovering
      → let c1 = attempts hp others 0 (suc k) (preparing c) in
        start others c ≡ done (true, record c1 { heartbeat = start_thread c1.heartbeat })
  unfolding start compare_and_set after_start
  start-connects k hp others c fresh known keep bound fail hit =
      let looped =
        connect_loop-connects k 10 0 hp others (preparing c) (omega arith) bound known keep fail
          hit in
      rw (fresh, start) (rw looped)

  -- `start` of a client that has not been started and whose address parsed, if the other
  -- threads leave the address alone, returns false after exactly ten attempts if none of them
  -- makes it recovering or stopped.
  pub start-gives_up :
      (hp : HostPort) (others : Others M) (c : Client M)
      → c.status ≡ none_state
      → c.host_port ≡ some hp
      → Keeps others
      → AllFail hp others 0 10 (preparing c)
      → start others c ≡ done (false, attempts hp others 0 10 (preparing c))
  unfolding start compare_and_set after_start
  start-gives_up hp others c fresh known keep fail =
      let looped = connect_loop-gives_up 9 0 hp others (preparing c) refl known keep fail in
      rw (fresh, start) (rw looped)

  pub start-total :
      (hp : HostPort) (others : Others M) (c : Client M)
      → c.host_port ≡ some hp
      → Keeps others
      → (ok : Bool) × (c' : Client M) × (start others c ≡ done (ok, c'))
  unfolding start compare_and_set after_start
  start-total hp others c known keep = elim (Bool-cases (c.status == none_state)) [
    | inl fresh ↦
        let (ok, c', e, _) =
          connect_loop-total 10 0 hp others (preparing c) refl (omega arith) known keep in
        let r = after_start (ok, c') in (r.0, r.1, rw (fresh, e))
    | inr used ↦ (false, c, rw used)
  ]

  pub start_used :
      (others : Others M) (c : Client M) → c.status ≢ none_state → start others c ≡ done (false, c)
  unfolding start compare_and_set
  start_used others c used =
      let not_fresh : (c.status == none_state) ≡ false = ground arith in rw not_fresh

  pub start-null :
      (others : Others M) (c : Client M)
      → c.status ≡ none_state
      → c.host_port ≡ none
      → start others c ≡ fault
  unfolding start compare_and_set connect_loop reconnect0 async_resolve
  start-null others c fresh null = rw (fresh, null)

  -- `start` of a new client, if the other threads leave its address alone, follows a null
  -- pointer if the URL's address does not parse, and returns otherwise.
  pub start-new_client :
      (sp : Splitter) (gid skey url : List ℕ) (futures : Store (Option M))
      (listeners : List (List ℕ × ℕ)) (stats : KiteStats) (session : Session M) (others : Others M)
      → Keeps others
      → let c = new_client sp gid skey url futures listeners stats session in
        ((server_address sp url ≡ none) × (start others c ≡ fault))
        ⊎ ((hp : HostPort) × (server_address sp url ≡ some hp)
            × (ok : Bool) × (c' : Client M) × (start others c ≡ done (ok, c')))
  unfolding new_client
  start-new_client sp gid skey url futures listeners stats session others keep =
      let c = new_client sp gid skey url futures listeners stats session in
      elim (Option-cases (server_address sp url)) [
        | inl null ↦ inl (null, start-null others c refl null)
        | inr (hp, known) ↦
            let (ok, c', e) = start-total hp others c known keep in inr (hp, known, ok, c', e)
      ]
