-- ===== src/Socket/Heartbeat.antt =====
-- The heartbeat of core/socket/server/server-socket.ts. The platform's running intervals are a list
-- of their identifiers; `setInterval` returns a number that is not 0 and not in use.
use nerdhub_chat_cli_prototy.Common.{
  ℕ, zero, suc, ◌≡◌, refl, ap, ◌≢◌, ◌⊎◌, inl, inr, Bool, true, false, not, Option, none, some, List,
  [], ◌∷◌, ◌++◌, ◌==◌, nat_same, nat_beq_iff, filter, if◌then◌else◌, arith,
}
use nerdhub_chat_cli_prototy.Socket.{ServerSocket, ReadyState, opened, closing, closed, ping, send}

-- `if (timer)`
abbrev pub is_truthy : Option ℕ → Bool
is_truthy none = false
is_truthy (some zero) = false
is_truthy (some (suc n)) = true

-- `clearInterval`
pub clear_interval : Option ℕ → List ℕ → List ℕ
clear_interval none running = running
clear_interval (some t) running = filter (λ n. not (n == t)) running

-- The operations on the heartbeat, as "open", "close" and a direct call make them.
pub data Operation : Type 0 where
  starts : ℕ → Operation
  clears : Operation

module _ {D : Type 0} where
  unfoldable pub clear_heartbeat : ServerSocket D → List ℕ → List ℕ
  unfolding clear_interval
  clear_heartbeat s running =
      if is_truthy s.heartbeat_timer then clear_interval s.heartbeat_timer running else running

  -- `interval` is what `setInterval` returns
  unfoldable pub start_heartbeat : ℕ → ServerSocket D → List ℕ → ServerSocket D × List ℕ
  unfolding clear_heartbeat
  start_heartbeat interval s running =
      let cleared = if is_truthy s.heartbeat_timer then clear_heartbeat s running else running in
      (record s { heartbeat_timer = some interval }, cleared ++ interval ∷ [])

  -- `_socket.close()`
  abbrev pub close : ServerSocket D → ServerSocket D
  close s = elim s.socket.ready_state [
    | closed ↦ s
    | state ↦ record s { socket = record { ready_state = closing; sent = s.socket.sent } }
  ]

  abbrev pub or_close : ServerSocket D → Option (ServerSocket D) → ServerSocket D
  or_close s none = close s
  or_close s (some s') = s'

  -- one call of the interval's callback
  unfoldable pub beat : (ReadyState → Bool) → ServerSocket D → ServerSocket D
  beat throws s = elim s.socket.ready_state [
    | opened ↦ or_close s (send throws s ping)
    | state ↦ close s
  ]

  -- A beat pings an open socket and changes nothing else of it; it closes every other socket, and
  -- sends nothing there.
  pub beat_lem :
      (throws : ReadyState → Bool) (s : ServerSocket D)
      → (s.socket.ready_state ≡ opened
          → (beat throws s).socket
            ≡ record { ready_state = opened; sent = s.socket.sent ++ ping ∷ [] })
        × (s.socket.ready_state ≢ opened
            → ((beat throws s).socket.sent ≡ s.socket.sent)
              × (((beat throws s).socket.ready_state ≡ closing)
                  ⊎ ((beat throws s).socket.ready_state ≡ closed)))
  unfolding beat send
  beat_lem throws s = (λ e. ground arith, λ e. (ground arith, ground arith))

  -- The running intervals are those of this socket: none, or the one that it remembers.
  abbrev pub IsSingle : ServerSocket D → List ℕ → Type 0
  IsSingle s running =
      (running ≡ []) ⊎ ((t : ℕ) × (s.heartbeat_timer ≡ some (suc t)) × (running ≡ suc t ∷ []))

  pub apply : Operation → ServerSocket D × List ℕ → ServerSocket D × List ℕ
  unfolding start_heartbeat clear_heartbeat
  apply (starts t) (s, running) = start_heartbeat (suc t) s running
  apply clears (s, running) = (s, clear_heartbeat s running)

  pub apply_all : List Operation → ServerSocket D × List ℕ → ServerSocket D × List ℕ
  unfolding apply
  apply_all [] state = state
  apply_all (o ∷ os) state = apply_all os (apply o state)

  clear_heartbeat_of_IsSingle :
      (s : ServerSocket D) (running : List ℕ) → IsSingle s running → clear_heartbeat s running ≡ []
  unfolding clear_heartbeat
  clear_heartbeat_of_IsSingle s running (inl e) = ground (arith, e)
  clear_heartbeat_of_IsSingle s running (inr (u, e, h)) =
      rw (e, h) (ground (arith, nat_beq_iff (suc u) (suc u)))

  cleared_first :
      (s : ServerSocket D) (running : List ℕ)
      → IsSingle s running
      → (if is_truthy s.heartbeat_timer then clear_heartbeat s running else running) ≡ []
  cleared_first s running h = ground (arith, clear_heartbeat_of_IsSingle s running h, h)

  apply-IsSingle :
      (o : Operation) (s : ServerSocket D) (running : List ℕ)
      → IsSingle s running
      → IsSingle (apply o (s, running)).0 (apply o (s, running)).1
  unfolding apply
  apply-IsSingle (starts t) s running h =
      inr (t, refl, ap (λ l. l ++ suc t ∷ []) (cleared_first s running h))
  apply-IsSingle clears s running h = inl (clear_heartbeat_of_IsSingle s running h)

  apply_all-IsSingle :
      (os : List Operation) (s : ServerSocket D) (running : List ℕ)
      → IsSingle s running
      → IsSingle (apply_all os (s, running)).0 (apply_all os (s, running)).1
  unfolding apply_all
  apply_all-IsSingle [] s running h = h
  apply_all-IsSingle (o ∷ os) s running h =
      apply_all-IsSingle os (apply o (s, running)).0 (apply o (s, running)).1
        (apply-IsSingle o s running h)

  -- However often the heartbeat of a new socket is started and cleared, at most one interval runs,
  -- and it is the one that the socket remembers; clearing once more stops it.
  pub heartbeat-IsSingle :
      (os : List Operation) (s : ServerSocket D)
      → IsSingle (apply_all os (s, [])).0 (apply_all os (s, [])).1
        × ((apply clears (apply_all os (s, []))).1 ≡ [])
  unfolding apply
  heartbeat-IsSingle os s =
      let single = apply_all-IsSingle os s [] (inl refl) in
      (single, clear_heartbeat_of_IsSingle (apply_all os (s, [])).0 (apply_all os (s, [])).1 single)
