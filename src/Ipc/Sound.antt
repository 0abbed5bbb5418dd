-- ===== src/Ipc/Sound.antt =====
-- When the tables of rust/src/ipc.rs are in order, between the operations and within one.
use open_code_server.Base.{
  ℕ, ◌≤◌, ◌≡◌, refl, sym, ap, ◌∙◌, Bool, true, false, ◌&&◌, some, none, is_none, [], ◌∷◌, ◌==◌, ltb,
  leb, arith, Result, ok, err, if◌then◌else◌,
}
use open_code_server.Protocol.Messages.{max_message_bytes}
use open_code_server.Lists.{length, all, length-append, all-append}
use open_code_server.Ipc.{
  IpcError, UnixStream, PendingState, PendingConnection, IpcCall, Kernel, Ipc, max_subscribers,
  max_pending_handshakes, remove_pending, called, remove, set_state, add_subscriber, find_pending,
}
use open_code_server.Ipc.Reading.{line_of}
use open_code_server.Ipc.Table.{
  distinct, length-remove, length-write, distinct-remove, distinct-write, all-remove, all-write,
  all-write_same, all-find, remove-write, remove-find_none,
}

abbrev pub is_uid : ℕ → Result IpcError ℕ → Bool
is_uid own (ok uid) = uid == own
is_uid own (err e) = false

-- The state of a connection between two operations: a request without its newline and with room
-- left, or a response of legal length that is not written to its end.
unfoldable pub is_settled : PendingState → Bool
is_settled (PendingState.reading buffer) =
    ltb (length buffer) max_message_bytes && is_none (line_of buffer)
is_settled PendingState.awaiting_response = true
is_settled (PendingState.writing response offset disposition) =
    ltb offset (length response) && leb (length response) max_message_bytes

abbrev pub entry_is_settled : ℕ × PendingConnection → Bool
entry_is_settled (fd, c) = is_settled c.state

module _ (os : Kernel) where
  -- The peer of the socket is the agent's own user.
  unfoldable pub is_own : UnixStream → Bool
  is_own stream = is_uid os.effective_uid (os.peer_effective_uid stream)

  unfoldable pub entry_is_own : ℕ × PendingConnection → Bool
  unfolding is_own
  entry_is_own (fd, c) = c.stream.fd == fd && is_own c.stream

  unfoldable pub IsSound : Ipc → Type 0
  IsSound s =
      (length s.pending ≤ max_pending_handshakes)
      × (length s.subscribers ≤ max_subscribers)
      × (distinct s.pending ≡ true)
      × (all entry_is_own s.pending ≡ true)
      × (all is_own s.subscribers ≡ true)

  unfoldable pub IsWellFormed : Ipc → Type 0
  unfolding IsSound
  IsWellFormed s = IsSound s × (all entry_is_settled s.pending ≡ true)

  -- In order but for the state of one connection.
  unfoldable pub IsAside : ℕ → Ipc → Type 0
  unfolding IsSound
  IsAside fd s = IsSound s × (all entry_is_settled (remove_pending fd s.pending) ≡ true)

  pub called-IsWellFormed :
      (s : Ipc) (call : IpcCall) → IsWellFormed s → IsWellFormed (called s call)
  unfolding called IsWellFormed
  called-IsWellFormed s call h = h

  pub called-IsAside :
      (fd : ℕ) (s : Ipc) (call : IpcCall) → IsAside fd s → IsAside fd (called s call)
  unfolding called IsAside
  called-IsAside fd s call h = h

  pub IsWellFormed-IsAside : (fd : ℕ) (s : Ipc) → IsWellFormed s → IsAside fd s
  unfolding IsWellFormed IsAside
  IsWellFormed-IsAside fd s (sound, settled) =
      (sound, all-remove entry_is_settled fd s.pending settled)

  pub remove-IsSound : (fd : ℕ) (s : Ipc) → IsSound s → IsSound (remove fd s)
  unfolding remove IsSound
  remove-IsSound fd s (few, others, once, own, theirs) =
      let shorter = length-remove fd s.pending in
      (
        omega arith,
        others,
        distinct-remove fd s.pending once,
        all-remove entry_is_own fd s.pending own,
        theirs,
      )

  pub set_state-IsSound :
      (fd : ℕ) (st : PendingState) (s : Ipc) → IsSound s → IsSound (set_state fd st s)
  unfolding set_state IsSound entry_is_own
  set_state-IsSound fd st s (few, others, once, own, theirs) =
      let same = length-write fd st s.pending in
      (
        omega arith,
        others,
        distinct-write fd st s.pending once,
        all-write_same entry_is_own fd st s.pending (λ k c. refl) ∙ own,
        theirs,
      )

  pub remove-IsWellFormed : (fd : ℕ) (s : Ipc) → IsAside fd s → IsWellFormed (remove fd s)
  unfolding IsWellFormed IsAside remove
  remove-IsWellFormed fd s (sound, settled) = (remove-IsSound fd s sound, settled)

  pub set_state-IsAside :
      (fd : ℕ) (st : PendingState) (s : Ipc) → IsAside fd s → IsAside fd (set_state fd st s)
  unfolding IsAside set_state
  set_state-IsAside fd st s (sound, settled) = (
    set_state-IsSound fd st s sound,
    ap (all entry_is_settled) (remove-write fd st s.pending) ∙ settled,
  )

  pub set_state-IsWellFormed :
      (fd : ℕ) (st : PendingState) (s : Ipc)
      → is_settled st ≡ true
      → IsAside fd s
      → IsWellFormed (set_state fd st s)
  unfolding IsAside IsWellFormed set_state
  set_state-IsWellFormed fd st s good (sound, settled) = (
    set_state-IsSound fd st s sound,
    all-write entry_is_settled fd st s.pending (λ k c. good) settled,
  )

  -- A connection of the table is settled, and its socket is the user's own.
  pub found_settled :
      (fd : ℕ) (s : Ipc) (c : PendingConnection)
      → find_pending fd s.pending ≡ some c
      → IsWellFormed s
      → is_settled c.state ≡ true
  unfolding IsWellFormed
  found_settled fd s c e (sound, settled) = all-find entry_is_settled fd s.pending c e settled

  pub found_own :
      (fd : ℕ) (s : Ipc) (c : PendingConnection)
      → find_pending fd s.pending ≡ some c
      → IsSound s
      → is_own c.stream ≡ true
  unfolding IsSound entry_is_own
  found_own fd s c e (few, others, once, own, theirs) =
      ground (arith, all-find entry_is_own fd s.pending c e own)

  pub not_found-IsWellFormed :
      (fd : ℕ) (s : Ipc) → find_pending fd s.pending ≡ none → IsAside fd s → IsWellFormed s
  unfolding IsAside IsWellFormed
  not_found-IsWellFormed fd s e (sound, settled) =
      (sound, ap (all entry_is_settled) (sym (remove-find_none fd s.pending e)) ∙ settled)

  pub add_subscriber-IsWellFormed :
      (stream : UnixStream) (s : Ipc)
      → is_own stream ≡ true
      → IsWellFormed s
      → IsWellFormed (add_subscriber stream s)
  unfolding length add_subscriber IsWellFormed IsSound
  add_subscriber-IsWellFormed stream s mine ((few, others, once, own, theirs), settled) =
      ground
        (arith, length-append s.subscribers (stream ∷ []), all-append is_own s.subscribers stream)

  -- A branch on a test keeps the order where both sides do.
  pub if-IsWellFormed {ℓ} :
      {A : Type ℓ} (test : Bool) (x y : A × Ipc)
      → IsWellFormed x.1
      → IsWellFormed y.1
      → IsWellFormed (if test then x else y).1
  if-IsWellFormed true x y h g = h
  if-IsWellFormed false x y h g = g

  -- The same, where a side may use what the test says.
  pub test-IsWellFormed {ℓ} :
      {A : Type ℓ} (test : Bool) (x y : A × Ipc)
      → (test ≡ true → IsWellFormed x.1)
      → (test ≡ false → IsWellFormed y.1)
      → IsWellFormed (if test then x else y).1
  test-IsWellFormed true x y h g = h refl
  test-IsWellFormed false x y h g = g refl

  pub choose-IsWellFormed :
      (test : Bool) (x y : Ipc)
      → (test ≡ true → IsWellFormed x)
      → (test ≡ false → IsWellFormed y)
      → IsWellFormed (if test then x else y)
  choose-IsWellFormed true x y h g = h refl
  choose-IsWellFormed false x y h g = g refl
