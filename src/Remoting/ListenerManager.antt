-- ===== src/Remoting/ListenerManager.antt =====
-- remoting/ListenerManager.cpp: the static map from an address to its listener.
use kiteq_client_cpp.Base.{ℕ, ◌≡◌, List, [], none, some, arith, if◌then◌else◌}
use kiteq_client_cpp.Base.Dict.{bytes_eq, find, insert, erase, find-insert, find-erase}

-- `L` is the type of pointers to listeners.
module _ {ℓ} {L : Type ℓ} where
  -- The static map at first.
  unfoldable pub no_listeners : List (List ℕ × L)
  no_listeners = []

  -- `map::insert` leaves a channel that is there.
  unfoldable pub register_listener : List ℕ → L → List (List ℕ × L) → List (List ℕ × L)
  register_listener channel listener listeners = insert channel listener listeners

  unfoldable pub unregister_listener : List ℕ → List (List ℕ × L) → List (List ℕ × L)
  unregister_listener channel listeners = erase channel listeners

  unfoldable pub get_listener : L → List ℕ → List (List ℕ × L) → L
  get_listener default_listener channel listeners = elim (find channel listeners) [
    | none ↦ default_listener
    | some l ↦ l
  ]

  -- Registering a second listener for a channel changes the listener of no channel.
  pub register_listener_again :
      (d a b : L) (c j : List ℕ) (ls : List (List ℕ × L))
      → let once = register_listener c a ls in
        get_listener d j (register_listener c b once) ≡ get_listener d j once
  unfolding register_listener get_listener
  register_listener_again d a b c j ls = ground (
    arith,
    bytes_eq.beq_iff c j,
    bytes_eq.beq_iff c c,
    find-insert c c a ls,
    find-insert c j a ls,
    find-insert c j b (insert c a ls),
    find-insert c c b (insert c a ls),
  )

  -- After `unregisterListener` a channel has the default listener and every other one has its
  -- own, and a listener that is registered then is the channel's.
  pub unregister_listener_lem :
      (d b : L) (c j : List ℕ) (ls : List (List ℕ × L))
      → let less = unregister_listener c ls in
        (get_listener d j less ≡ (if bytes_eq.beq c j then d else get_listener d j ls))
        × (get_listener d c (register_listener c b less) ≡ b)
  unfolding register_listener unregister_listener get_listener
  unregister_listener_lem d b c j ls = ground (
    arith,
    bytes_eq.beq_iff c j,
    bytes_eq.beq_iff c c,
    find-erase c j ls,
    find-erase c c ls,
    find-insert c c b (erase c ls),
  )
