-- ===== src/Remoting/Machine/Runs.antt =====
-- remoting/asioKiteIOClient.cpp: `start` and `reconnect` are made of the machine's steps, if what the
-- other threads do while they sleep is.
use kiteq_client_cpp.Base.{
  ℕ, zero, suc, ◌+◌, ◌≡◌, ◌≢◌, refl, ◌⊎◌, ap, subst, inl, inr, Bool, true, false, ◌||◌, some, arith,
  Bool-cases, Option-cases, ◌==◌, leb,
}
use native.Mathlib.Decide.{ℕ_discrete}
use kiteq_client_cpp.ByteBuf.{Platform}
use kiteq_client_cpp.Protocol.{Codec}
use kiteq_client_cpp.KitePacket.{Outcome, done}
use kiteq_client_cpp.KitePacket.Outcomes.{>>=-done, done-injective, fault-not-done}
use kiteq_client_cpp.Commons.Counter.{compare_and_set}
use kiteq_client_cpp.Commons.HostPort.{HostPort}
use kiteq_client_cpp.Remoting.Heartbeat.{set_parent}
use kiteq_client_cpp.Remoting.Client.{Client, none_state, prepare, recovering, stop, async_resolve}
use kiteq_client_cpp.Messages.ConnMeta.{ConnMeta}
use kiteq_client_cpp.Remoting.Connect.{Others, after_start, reconnect0, connect_loop, start}
use kiteq_client_cpp.Remoting.Connect.Loop.{
  attempt, asked, reconnect0_lem, preparing, start_used, Keeps,
}
use kiteq_client_cpp.Remoting.Connect.Status.{Avoid, start-Avoid}
use kiteq_client_cpp.Remoting.Machine.Kept.{Reach-Kept}
use kiteq_client_cpp.Remoting.Machine.{
  prepares, adopts, attempts, beats, Reach, here, later, Reach-trans,
}

module _ {M : Type 0} (pf : Platform) (codec : Codec M) (default_listener : ℕ) where
  ends_in :
      {c d c' : Client M} {ok ok' : Bool}
      → Reach pf codec default_listener c d
      → (let from : Outcome (Bool × Client M) = done (ok, d) in from ≡ done (ok', c'))
      → Reach pf codec default_listener c c'
  ends_in r e = subst (Reach pf codec default_listener _) (ap (λ t. t.1) (done-injective e)) r

  -- What the other threads do is made of steps.
  abbrev pub AreMoves : Others M → Type 0
  AreMoves others = (n : ℕ) (c : Client M) → Reach pf codec default_listener c (others n c)

  -- So is what they do while a request waits.
  abbrev pub Waits : (Client M → Outcome (Client M)) → Type 0
  Waits meanwhile = (c c' : Client M) → meanwhile c ≡ done c' → Reach pf codec default_listener c c'

  pub AreMoves-Keeps : (others : Others M) → AreMoves others → Keeps others
  AreMoves-Keeps others moves n c =
      (Reach-Kept pf codec default_listener c (others n c) (moves n c)).host_port

  attempt-Reach :
      (n : ℕ) (hp : HostPort) (others : Others M) (c : Client M)
      → AreMoves others
      → c.host_port ≡ some hp
      → c.status ≢ none_state
      → Reach pf codec default_listener c (attempt hp others n c)
  unfolding async_resolve
  attempt-Reach n hp others c moves known begun =
      let queried : async_resolve c ≡ done (asked hp c) = rw known in
      later (attempts begun queried) (moves n (asked hp c))

  pub connect_loop-Reach :
      (fuel n : ℕ) (others : Others M) (c c' : Client M) (ok : Bool)
      → AreMoves others
      → c.status ≢ none_state
      → connect_loop fuel n others c ≡ done (ok, c')
      → Reach pf codec default_listener c c'
  unfolding connect_loop reconnect0 async_resolve
  connect_loop-Reach zero n others c c' ok moves begun e = cc
  connect_loop-Reach (suc fuel) n others c0 c' ok moves begun e = elim (Option-cases c0.host_port) [
    | inl null ↦ absurd (fault-not-done (rw null at e))
    | inr (hp, known) ↦
        let c = attempt hp others (n + 1) c0 in
        let first = attempt-Reach (n + 1) hp others c0 moves known begun in
        let looped = rw (reconnect0_lem (n + 1) hp others c0 known) at e in
        let begun' = (Reach-Kept pf codec default_listener c0 c first).begun begun in
        elim (Bool-cases (c.status == recovering)) [
          | inl hit ↦ ends_in first (rw hit at looped)
          | inr miss ↦ elim (Bool-cases (leb 10 (n + 1) || c.status == stop)) [
            | inl out ↦ ends_in first (rw (miss, out) at looped)
            | inr more ↦ Reach-trans pf codec default_listener first (
                connect_loop-Reach fuel (n + 1) others c c' ok moves begun'
                  (rw (miss, more) at looped))
          ]
        ]
  ]

  after_start-Reach :
      (t : Bool × Client M)
      → (t.1).heartbeat.has_parent ≡ true
      → Reach pf codec default_listener t.1 (after_start t).1
  unfolding after_start
  after_start-Reach (false, c) owner = here
  after_start-Reach (true, c) owner = later (beats owner) here

  -- Each call of `start` that returns has made steps of the client's state machine, if what the
  -- other threads do while it sleeps is made of such steps.
  pub start-Reach :
      (others : Others M) (c c' : Client M) (ok : Bool)
      → AreMoves others
      → start others c ≡ done (ok, c')
      → Reach pf codec default_listener c c'
  unfolding start compare_and_set set_parent
  start-Reach others c c' ok moves e = elim (Bool-cases (c.status == none_state)) [
    | inr used ↦ ends_in here (rw used at e)
    | inl fresh ↦
        let (t, looped, e1) =
          >>=-done (connect_loop 10 0 others (preparing c)) _ _ (rw fresh at e) in
        let r =
          connect_loop-Reach 10 0 others (preparing c) t.1 t.0 moves
            (λ z. absurd (omega (arith, z))) looped in
        let owner = (Reach-Kept pf codec default_listener (preparing c) t.1 r).owned refl in
        let prepared : Reach pf codec default_listener c (record c { status = prepare }) =
          subst (λ n. Reach pf codec default_listener c (record c { status = n }))
            (unfold compare_and_set in rw fresh) (later prepares here) in
        Reach-trans pf codec default_listener prepared (
          later adopts
            (Reach-trans pf codec default_listener r (ends_in (after_start-Reach t owner) e1)))
  ]

  -- When `start` has returned, true or false, then after any steps of any threads the next call
  -- returns false and changes nothing, if what the other threads did while the first one slept
  -- was made of such steps.
  pub start_once :
      (first second : Others M) (c c' d : Client M) (ok : Bool)
      → AreMoves first
      → start first c ≡ done (ok, c')
      → Reach pf codec default_listener c' d
      → start second d ≡ done (false, d)
  start_once first second c c' d ok moves e between =
      let avoids : Avoid none_state first =
        λ n x h. (Reach-Kept pf codec default_listener x (first n x) (moves n x)).begun h in
      let either : (c.status ≡ none_state) ⊎ (c.status ≢ none_state) =
        elim (ℕ_discrete c.status none_state) [ yes z ↦ inl z | no n ↦ inr n ] in
      let begun =
        start-Avoid none_state first c c' ok (λ z. absurd (omega (arith, z))) avoids either e in
      start_used second d ((Reach-Kept pf codec default_listener c' d between).begun begun)
