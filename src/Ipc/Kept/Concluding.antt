-- ===== src/Ipc/Kept/Concluding.antt =====
-- The end of a write (rust/src/ipc.rs, `advance_write` after its write) and the order of the tables.
use open_code_server.Base.{ℕ, ◌≡◌, refl, Bool, true, false, not, Option, some, none}
use open_code_server.Ipc.{
  IpcError, PendingConnection, IpcCall, Kernel, Ipc, called, remove, find_pending,
}
use open_code_server.Ipc.Writing.{
  WriteResult, called_if, or_closed, move_to_subscribers, after_watch, after_unarmed, conclude,
  conclude_in_time,
}
use open_code_server.Ipc.Sound.{
  IsWellFormed, IsAside, called-IsWellFormed, called-IsAside, IsWellFormed-IsAside,
  remove-IsWellFormed, found_own, not_found-IsWellFormed, add_subscriber-IsWellFormed,
  if-IsWellFormed,
}

module _ (os : Kernel) where
  or_closed-IsWellFormed :
      (answer : Option IpcError) (fd : ℕ) (s : Ipc)
      → IsWellFormed os s
      → IsWellFormed os (or_closed answer fd s).1
  unfolding or_closed
  or_closed-IsWellFormed (some e) fd s h =
      remove-IsWellFormed os fd s (IsWellFormed-IsAside os fd s h)
  or_closed-IsWellFormed none fd s h = h

  called_if-IsWellFormed :
      (made : Bool) (s : Ipc) (call : IpcCall)
      → IsWellFormed os s
      → IsWellFormed os (called_if made s call)
  called_if-IsWellFormed true s call h = called-IsWellFormed os s call h
  called_if-IsWellFormed false s call h = h

  called_if-IsAside :
      (fd : ℕ) (made : Bool) (s : Ipc) (call : IpcCall)
      → IsAside os fd s
      → IsAside os fd (called_if made s call)
  called_if-IsAside fd true s call h = called-IsAside os fd s call h
  called_if-IsAside fd false s call h = h

  move-IsWellFormed :
      (fd : ℕ) (found : Option PendingConnection) (s : Ipc)
      → find_pending fd s.pending ≡ found
      → IsAside os fd s
      → IsWellFormed os (move_to_subscribers fd found s)
  unfolding move_to_subscribers IsAside
  move-IsWellFormed fd none s e h = not_found-IsWellFormed os fd s e h
  move-IsWellFormed fd (some c) s e h =
      add_subscriber-IsWellFormed os c.stream (remove fd s) (found_own os fd s c e h.0)
        (remove-IsWellFormed os fd s h)

  after_watch-IsWellFormed :
      (answer : Option IpcError) (fd : ℕ) (s : Ipc)
      → IsAside os fd s
      → IsWellFormed os (after_watch answer fd s).1
  unfolding after_watch
  after_watch-IsWellFormed (some e) fd s h = remove-IsWellFormed os fd s h
  after_watch-IsWellFormed none fd s h = move-IsWellFormed fd (find_pending fd s.pending) s refl h

  after_unarmed-IsWellFormed :
      (answer : Option IpcError) (fd : ℕ) (s : Ipc)
      → IsAside os fd s
      → IsWellFormed os (after_unarmed os answer fd s).1
  unfolding after_unarmed
  after_unarmed-IsWellFormed (some e) fd s h = remove-IsWellFormed os fd s h
  after_unarmed-IsWellFormed none fd s h =
      after_watch-IsWellFormed _ fd _ (called-IsAside os fd s _ h)

  conclude-IsWellFormed :
      (result : WriteResult) (fd : ℕ) (armed : Bool) (s : Ipc)
      → IsAside os fd s
      → (result ≡ WriteResult.keep → IsWellFormed os s)
      → IsWellFormed os (conclude os result fd armed s).1
  unfolding conclude
  conclude-IsWellFormed WriteResult.keep fd armed s aside h =
      or_closed-IsWellFormed _ fd _ (called_if-IsWellFormed (not armed) s _ (h refl))
  conclude-IsWellFormed WriteResult.close fd armed s aside h = remove-IsWellFormed os fd s aside
  conclude-IsWellFormed WriteResult.subscribe fd armed s aside h =
      after_unarmed-IsWellFormed _ fd _ (called_if-IsAside fd armed s _ aside)

  pub in_time-IsWellFormed :
      (fd deadline : ℕ) (result : WriteResult) (armed : Bool) (s : Ipc)
      → IsAside os fd s
      → (result ≡ WriteResult.keep → IsWellFormed os s)
      → IsWellFormed os (conclude_in_time os fd deadline result armed s).1
  unfolding conclude_in_time
  in_time-IsWellFormed fd deadline result armed s aside h =
      if-IsWellFormed os _ _ _ (remove-IsWellFormed os fd _ aside')
        (conclude-IsWellFormed result fd armed _ aside' (λ e. called-IsWellFormed os s _ (h e)))
    where
      aside' : IsAside os fd (called s IpcCall.now)
      aside' = called-IsAside os fd s IpcCall.now aside
