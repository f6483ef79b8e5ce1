-- ===== src/Remoting/Machine/Sound.antt =====
-- remoting/asioKiteIOClient.cpp: when a client is sound, and how it stays so.
use kiteq_client_cpp.Base.{
  ℕ, ◌<◌, ◌≡◌, refl, ap, subst, inl, inr, true, false, List, [], ◌∷◌, Option, none, some, arith,
  Bool-cases, ◌==◌,
}
use kiteq_client_cpp.Base.Word.{slt64}
use kiteq_client_cpp.KitePacket.{Outcome, done}
use kiteq_client_cpp.Session.{Session}
use kiteq_client_cpp.Commons.Counter.{KiteStats}
use kiteq_client_cpp.Commons.HostPort.{Splitter, HostPort, server_address}
use kiteq_client_cpp.Remoting.ResponseFuture.{Store, no_futures}
use kiteq_client_cpp.Remoting.ResponseFuture.Invariant.{Inv, no_futures-Inv}
use kiteq_client_cpp.KitePacket.Outcomes.{done-injective}
use kiteq_client_cpp.Remoting.Heartbeat.{
  Heartbeat, new_heartbeat, set_parent, start_thread, stop_threads, answered,
  set_next_heartbeat_time,
}
use kiteq_client_cpp.Remoting.Client.{Client, Io, none_state, stop, new_client}

-- The status is one that the code sets; a value is there for a request that was made and each request
-- is there once; the heartbeat's threads have a client to ask; before `start` nothing was asked of the
-- resolver; and the address is a.
pub record IsSound {M : Type 0} (a : Option HostPort) (c : Client M) : Type 0 where
  pub status_set : c.status < stop
  pub futures_valid : Inv c.futures
  pub owned : c.heartbeat.has_parent ≡ false → c.heartbeat.threads ≡ []
  pub idle : c.status ≡ none_state → (c.io.resolving ≡ []) × (c.io.connecting ≡ 0)
  pub address : c.host_port ≡ a

-- Who owns the threads does not change with the counters.
abbrev pub IsOwned : Heartbeat → Type 0
IsOwned h = h.has_parent ≡ false → h.threads ≡ []

pub answered-IsOwned :
    (now : ℕ) (r : Option ℕ) (h : Heartbeat) → IsOwned h → IsOwned (answered now r h)
unfolding answered
answered-IsOwned now none h o = o
answered-IsOwned now (some v) h o = elim (Bool-cases (v == now)) [ inl e ↦ rw e o | inr e ↦ rw e o ]

pub set_next-IsOwned : (t : ℕ) (h : Heartbeat) → IsOwned h → IsOwned (set_next_heartbeat_time t h)
unfolding set_next_heartbeat_time
set_next-IsOwned t h o = elim (Bool-cases (slt64 h.next_heartbeat_time t)) [
  | inl e ↦ rw e o
  | inr e ↦ rw e o
]

pub set_parent-IsOwned : (h : Heartbeat) → IsOwned (set_parent h)
unfolding set_parent
set_parent-IsOwned h e = cc

pub start_thread-IsOwned : (h : Heartbeat) → h.has_parent ≡ true → IsOwned (start_thread h)
unfolding start_thread
start_thread-IsOwned h owner e = cc

pub stop_threads-IsOwned : (h : Heartbeat) → IsOwned h → IsOwned (stop_threads h)
unfolding stop_threads
stop_threads-IsOwned h o e = rw (o e)

pub cons-not-nil : {A : Type 0} {x : A} {xs : List A} → x ∷ xs ≡ [] → ⊥
cons-not-nil e = cc

module _ {M : Type 0} where
  pub new_client-IsSound :
      (sp : Splitter) (gid skey url : List ℕ) (listeners : List (List ℕ × ℕ)) (stats : KiteStats)
      (session : Session M)
      → IsSound
          (server_address sp url)
          (new_client sp gid skey url no_futures listeners stats session)
  unfolding new_client new_heartbeat
  new_client-IsSound sp gid skey url listeners stats session = record {
    status_set = omega arith;
    futures_valid = no_futures-Inv;
    owned = λ e. refl;
    idle = λ e. (refl, refl);
    address = refl;
  }

  -- A client stays sound when one of its parts is replaced by a sound one.
  pub with_futures :
      (a : Option HostPort) (c : Client M) (s : Store (Option M))
      → Inv s
      → IsSound a c
      → IsSound a (record c { futures = s })
  with_futures a c s v h = record {
    status_set = h.status_set;
    futures_valid = v;
    owned = h.owned;
    idle = h.idle;
    address = h.address;
  }

  pub with_heartbeat :
      (a : Option HostPort) (c : Client M) (b : Heartbeat)
      → IsOwned b
      → IsSound a c
      → IsSound a (record c { heartbeat = b })
  with_heartbeat a c b o h = record {
    status_set = h.status_set;
    futures_valid = h.futures_valid;
    owned = o;
    idle = h.idle;
    address = h.address;
  }

  -- A status other than the first one may be set at any time.
  pub with_status :
      (a : Option HostPort) (c : Client M) (n : ℕ)
      → n < stop
      → (n ≡ none_state → c.status ≡ none_state)
      → IsSound a c
      → IsSound a (record c { status = n })
  with_status a c n low same h = record {
    status_set = low;
    futures_valid = h.futures_valid;
    owned = h.owned;
    idle = λ e. h.idle (same e);
    address = h.address;
  }

  pub with_io :
      (a : Option HostPort) (c : Client M) (io : Io)
      → (c.status ≡ none_state → (io.resolving ≡ []) × (io.connecting ≡ 0))
      → IsSound a c
      → IsSound a (record c { io = io })
  with_io a c io idle h = record {
    status_set = h.status_set;
    futures_valid = h.futures_valid;
    owned = h.owned;
    idle = idle;
    address = h.address;
  }

  pub with_rest :
      (a : Option HostPort) (c : Client M) (stats : KiteStats) (session : Session M)
      (bytes : List ℕ) (listeners : List (List ℕ × ℕ))
      → IsSound a c
      → IsSound a
          (record c { stats = stats; session = session; sent = bytes; listeners = listeners })
  with_rest a c stats session bytes listeners h = record {
    status_set = h.status_set;
    futures_valid = h.futures_valid;
    owned = h.owned;
    idle = h.idle;
    address = h.address;
  }

  pub of_done :
      {A : Type 0} (a : Option HostPort) (c c' : Client M) (x y : A)
      → let from : Outcome (Client M × A) = done (c, x) in
        from ≡ done (c', y) → IsSound a c → IsSound a c'
  of_done a c c' x y e h = subst (IsSound a) (ap (λ r. r.0) (done-injective e)) h
