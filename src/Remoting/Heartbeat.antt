-- ===== src/Remoting/Heartbeat.antt =====
-- remoting/asioKiteIOClient.cpp, class Heartbeat: when to send, and when the peer counts as dead.
-- Times are milliseconds as the bit pattern of a `long`.
use kiteq_client_cpp.Base.{
  ℕ, ◌+◌, ◌^◌, ◌≤◌, ◌<◌, ◌≡◌, ◌≢◌, ◌↔◌, refl, Bool, true, false, not, List, [], ◌∷◌, ◌++◌, map,
  Option, none, some, ◌==◌, ==_refl, length, arith, if◌then◌else◌, Bool-cases, inl, inr, All,
}
use kiteq_client_cpp.Base.Word.{slt64, add64}
use kiteq_client_cpp.Commons.Counter.{inc, set_count, compare_and_set}

-- `threads` are those of `gHbThread`, each with whether it was asked to stop; `has_parent`: the
-- pointer to the client is not null.
pub record Heartbeat : Type 0 where
  pub has_parent : Bool
  pub threads : List Bool
  pub stop_count : ℕ
  pub next_heartbeat_time : ℕ

unfoldable pub new_heartbeat : Heartbeat
new_heartbeat = record { has_parent = false; threads = []; stop_count = 0; next_heartbeat_time = 0 }

unfoldable pub set_parent : Heartbeat → Heartbeat
set_parent h = record h { has_parent = true }

-- `Heartbeat::start`: one more thread.
unfoldable pub start_thread : Heartbeat → Heartbeat
start_thread h = record h { threads = h.threads ++ false ∷ [] }

-- `Heartbeat::stop`: `interrupt_all`.
unfoldable pub stop_threads : Heartbeat → Heartbeat
stop_threads h = record h { threads = map (λ _. true) h.threads }

-- `setNextHeartbeatTime`: read, and replace an earlier time unless somebody has changed it since;
-- then again. Each entry is what another thread stores between the two steps of a round, if anything.
-- `none`: the rounds that are given were not enough.
abbrev stored : Option ℕ → ℕ → ℕ
stored none v = v
stored (some w) v = w

unfoldable pub set_next_time : List (Option ℕ) → ℕ → ℕ → Option ℕ
unfolding compare_and_set
set_next_time [] time next = none
set_next_time (o ∷ os) time next =
    let r = compare_and_set next time (stored o next) in
    let again = set_next_time os time r.1 in
    if slt64 next time then (if r.0 then some r.1 else again) else some next

-- The call with no other thread in between.
unfoldable pub set_next_heartbeat_time : ℕ → Heartbeat → Heartbeat
set_next_heartbeat_time time h =
    if slt64 h.next_heartbeat_time time then record h { next_heartbeat_time = time } else h

unfoldable pub reset : Heartbeat → Heartbeat
unfolding set_count
reset h = record h { stop_count = set_count 0 h.stop_count }

unfoldable pub is_dead : Heartbeat → Bool
is_dead h = not (slt64 h.stop_count 5)

-- `hbThread` after a heartbeat was sent at `now`; the answer is its version, `none` for no response.
unfoldable pub answered : ℕ → Option ℕ → Heartbeat → Heartbeat
unfolding inc set_count
answered now none h = record h { stop_count = (inc h.stop_count).1 }
answered now (some version) h =
    if version == now
    then record h { stop_count = set_count 0 h.stop_count }
    else record h { stop_count = (inc h.stop_count).1 }

-- Is it time to send?
unfoldable pub is_due : ℕ → Heartbeat → Bool
is_due now h = slt64 h.next_heartbeat_time now

-- The answers to a row of heartbeats, each with its time.
unfoldable pub run : List (ℕ × Option ℕ) → Heartbeat → Heartbeat
run [] h = h
run ((now, answer) ∷ rest) h = run rest (answered now answer h)

-- No answer, or one to another heartbeat.
abbrev pub IsMissed : ℕ × Option ℕ → Type 0
IsMissed (now, answer) = answer ≢ some now

answered-IsMissed :
    (now : ℕ) (answer : Option ℕ) (h : Heartbeat)
    → answer ≢ some now
    → (answered now answer h).stop_count ≡ add64 h.stop_count 1
unfolding answered inc
answered-IsMissed now none h miss = refl
answered-IsMissed now (some version) h miss = ground arith

run-stop_count :
    (beats : List (ℕ × Option ℕ)) (h : Heartbeat)
    → All IsMissed beats
    → h.stop_count + length beats < 2 ^ 64
    → (run beats h).stop_count ≡ h.stop_count + length beats
unfolding run
run-stop_count [] h v bound = omega arith
run-stop_count ((now, answer) ∷ rest) h v bound =
    let first = answered-IsMissed now answer h v.0 in
    omega (arith, first, run-stop_count rest (answered now answer h) v.1)

-- From a count of 0 and for fewer than 2^63 heartbeats in a row without the right answer, the
-- peer is dead exactly if there were five or more of them; the right answer to the next one, or
-- a reset, makes it alive again.
pub is_dead-run :
    (beats : List (ℕ × Option ℕ)) (h : Heartbeat) (now : ℕ)
    → All IsMissed beats
    → h.stop_count ≡ 0
    → length beats < 2 ^ 63
    → ((is_dead (run beats h) ≡ true) ↔ (5 ≤ length beats))
      × (is_dead (answered now (some now) (run beats h)) ≡ false)
      × (is_dead (reset (run beats h)) ≡ false)
unfolding is_dead
is_dead-run beats h now v fresh bound =
    let counted = run-stop_count beats h v (omega arith) in
    (
      rw counted (ground arith),
      unfold answered set_count in rw (==_refl now),
      unfold reset set_count in refl,
    )

set_next_time_lem :
    (os : List (Option ℕ)) (time next next' : ℕ)
    → set_next_time os time next ≡ some next'
    → slt64 next' time ≡ false
unfolding set_next_time compare_and_set
set_next_time_lem [] time next next' e = cc
set_next_time_lem (o ∷ os) time next next' e =
    ground (arith, set_next_time_lem os time (stored o next) next')

set_next_time-ends :
    (before after : List (Option ℕ)) (time next : ℕ)
    → (next' : ℕ) × (set_next_time (before ++ none ∷ after) time next ≡ some next')
unfolding set_next_time compare_and_set
set_next_time-ends [] after time next = elim (Bool-cases (slt64 next time)) [
  | inl e ↦ (time, rw (e, ==_refl next))
  | inr e ↦ (next, rw e)
]
set_next_time-ends (o ∷ before) after time next = elim (Bool-cases (slt64 next time)) [
  | inr e ↦ (next, rw e)
  | inl e ↦ elim (Bool-cases (stored o next == next)) [
    | inl same ↦ (time, rw (e, same))
    | inr other ↦
        let (next', found) = set_next_time-ends before after time (stored o next) in
        (next', rw (e, other) found)
  ]
]

-- Whatever other threads store in between, `setNextHeartbeatTime` returns at the latest in the
-- first round in which nobody stores anything, and then the next heartbeat is not before the
-- given time.
pub set_next_time-total :
    (before after : List (Option ℕ)) (time next : ℕ)
    → (next' : ℕ) × (set_next_time (before ++ none ∷ after) time next ≡ some next')
      × (slt64 next' time ≡ false)
set_next_time-total before after time next =
    let (next', e) = set_next_time-ends before after time next in
    (next', e, set_next_time_lem (before ++ none ∷ after) time next next' e)
