-- ===== src/Ipc/Kept/Subscribing.antt =====
-- The subscribers' streams (rust/src/ipc.rs) and the order of the tables.
use open_code_server.Base.{ℕ, ◌≤◌, ◌≡◌, refl, Bool, true, List, [], ◌∷◌, arith}
use open_code_server.Lists.{length, all}
use open_code_server.Ipc.{UnixStream, Kernel, Ipc, called}
use open_code_server.Ipc.Reading.{read_stream}
use open_code_server.Ipc.Subscribers.{
  retain_streams, broadcast, push_to, handle_readable, still_quiet,
}
use open_code_server.Ipc.Sound.{is_own, IsSound, IsWellFormed}

module _ (os : Kernel) where
  -- Only some of the streams stay, and the calls of the test change no table.
  retain_streams-few :
      (test : Ipc → UnixStream → Bool × Ipc)
      → ((s : Ipc) (stream : UnixStream) → (test s stream).1.pending ≡ s.pending)
      → (streams : List UnixStream) (s : Ipc)
      → (length (retain_streams os test streams s).0 ≤ length streams)
        × ((retain_streams os test streams s).1.pending ≡ s.pending)
  unfolding retain_streams length
  retain_streams-few test same [] s = (omega arith, refl)
  retain_streams-few test same (stream ∷ streams) s =
      ground (arith, same s stream, retain_streams-few test same streams (test s stream).1)

  retain_streams-all :
      (test : Ipc → UnixStream → Bool × Ipc) (want : UnixStream → Bool) (streams : List UnixStream)
      (s : Ipc)
      → all want streams ≡ true
      → all want (retain_streams os test streams s).0 ≡ true
  unfolding retain_streams all
  retain_streams-all test want [] s h = refl
  retain_streams-all test want (stream ∷ streams) s h =
      ground (arith, retain_streams-all test want streams (test s stream).1)

  retained-IsWellFormed :
      (test : Ipc → UnixStream → Bool × Ipc)
      → ((s : Ipc) (stream : UnixStream) → (test s stream).1.pending ≡ s.pending)
      → (s : Ipc) → IsWellFormed os s
      → IsWellFormed os (record (retain_streams os test s.subscribers s).1 {
        subscribers = (retain_streams os test s.subscribers s).0;
      })
  unfolding IsWellFormed IsSound
  retained-IsWellFormed test same s ((few, others, once, own, theirs), settled) =
      let (fewer, pending) = retain_streams-few test same s.subscribers s in
      let theirs' = retain_streams-all test (is_own os) s.subscribers s theirs in
      ground (arith, pending)

  pub broadcast-IsWellFormed :
      (line : List ℕ) (s : Ipc) → IsWellFormed os s → IsWellFormed os (broadcast os line s)
  unfolding broadcast push_to called
  broadcast-IsWellFormed line s h = retained-IsWellFormed (push_to os line) (λ s' stream. refl) s h

  pub handle_readable-IsWellFormed :
      (fd : ℕ) (s : Ipc) → IsWellFormed os s → IsWellFormed os (handle_readable os fd s)
  unfolding handle_readable still_quiet read_stream called
  handle_readable-IsWellFormed fd s h =
      retained-IsWellFormed (still_quiet os fd) (λ s' stream. ground arith) s h
