-- ===== src/Ipc/Table.antt =====
-- The table of the pending connections of rust/src/ipc.rs: what its changes keep.
use open_code_server.Base.{
  ℕ, ◌≤◌, ◌≡◌, refl, Bool, true, not, ◌&&◌, some, none, List, [], ◌∷◌, ◌==◌, arith,
}
use open_code_server.Lists.{length, all, retain}
use open_code_server.Ipc.{
  PendingState, PendingConnection, find_pending, remove_pending, write_state,
}

abbrev pub Table : Type 0
Table = List (ℕ × PendingConnection)

unfoldable pub absent : ℕ → Table → Bool
absent fd [] = true
absent fd ((k, c) ∷ m) = not (k == fd) && absent fd m

-- No descriptor is in the table twice.
unfoldable pub distinct : Table → Bool
unfolding absent
distinct [] = true
distinct ((k, c) ∷ m) = absent k m && distinct m

pub length-remove : (fd : ℕ) (m : Table) → length (remove_pending fd m) ≤ length m
unfolding length remove_pending
length-remove fd [] = omega arith
length-remove fd ((k, c) ∷ m) = ground (arith, length-remove fd m)

pub length-write :
    (fd : ℕ) (st : PendingState) (m : Table) → length (write_state fd st m) ≡ length m
unfolding length write_state
length-write fd st [] = refl
length-write fd st ((k, c) ∷ m) = ground (arith, length-write fd st m)

pub absent-remove_self : (fd : ℕ) (m : Table) → absent fd (remove_pending fd m) ≡ true
unfolding absent remove_pending
absent-remove_self fd [] = refl
absent-remove_self fd ((k, c) ∷ m) = ground (arith, absent-remove_self fd m)

pub absent-remove :
    (j fd : ℕ) (m : Table) → absent j m ≡ true → absent j (remove_pending fd m) ≡ true
unfolding absent remove_pending
absent-remove j fd [] h = refl
absent-remove j fd ((k, c) ∷ m) h = ground (arith, absent-remove j fd m)

pub absent-write :
    (j fd : ℕ) (st : PendingState) (m : Table) → absent j (write_state fd st m) ≡ absent j m
unfolding absent write_state
absent-write j fd st [] = refl
absent-write j fd st ((k, c) ∷ m) = ground (arith, absent-write j fd st m)

pub distinct-remove :
    (fd : ℕ) (m : Table) → distinct m ≡ true → distinct (remove_pending fd m) ≡ true
unfolding distinct remove_pending
distinct-remove fd [] h = refl
distinct-remove fd ((k, c) ∷ m) h = ground (arith, distinct-remove fd m, absent-remove k fd m)

pub distinct-write :
    (fd : ℕ) (st : PendingState) (m : Table)
    → distinct m ≡ true
    → distinct (write_state fd st m) ≡ true
unfolding distinct write_state
distinct-write fd st [] h = refl
distinct-write fd st ((k, c) ∷ m) h = ground (arith, distinct-write fd st m, absent-write k fd st m)

pub absent-retain :
    (keep : ℕ × PendingConnection → Bool) (j : ℕ) (m : Table)
    → absent j m ≡ true
    → absent j (retain keep m) ≡ true
unfolding absent retain
absent-retain keep j [] h = refl
absent-retain keep j ((k, c) ∷ m) h = ground (arith, absent-retain keep j m)

pub distinct-retain :
    (keep : ℕ × PendingConnection → Bool) (m : Table)
    → distinct m ≡ true
    → distinct (retain keep m) ≡ true
unfolding distinct retain
distinct-retain keep [] h = refl
distinct-retain keep ((k, c) ∷ m) h = ground (arith, distinct-retain keep m, absent-retain keep k m)

pub remove-absent : (fd : ℕ) (m : Table) → absent fd m ≡ true → remove_pending fd m ≡ m
unfolding absent remove_pending
remove-absent fd [] h = refl
remove-absent fd ((k, c) ∷ m) h = ground (arith, remove-absent fd m)

pub remove-write :
    (fd : ℕ) (st : PendingState) (m : Table)
    → remove_pending fd (write_state fd st m) ≡ remove_pending fd m
unfolding remove_pending write_state
remove-write fd st [] = refl
remove-write fd st ((k, c) ∷ m) = ground (arith, remove-write fd st m)

pub find-absent : (fd : ℕ) (m : Table) → absent fd m ≡ true → find_pending fd m ≡ none
unfolding absent find_pending
find-absent fd [] h = refl
find-absent fd ((k, c) ∷ m) h = ground (arith, find-absent fd m)

-- A test of the entries that does not look at the state.
pub all-remove :
    (test : ℕ × PendingConnection → Bool) (fd : ℕ) (m : Table)
    → all test m ≡ true
    → all test (remove_pending fd m) ≡ true
unfolding all remove_pending
all-remove test fd [] h = refl
all-remove test fd ((k, c) ∷ m) h = ground (arith, all-remove test fd m)

-- An entry that passes where it is written, and the others before.
pub all-write :
    (test : ℕ × PendingConnection → Bool) (fd : ℕ) (st : PendingState) (m : Table)
    → ((k : ℕ) (c : PendingConnection) → test (k, record c { state = st }) ≡ true)
    → all test (remove_pending fd m) ≡ true
    → all test (write_state fd st m) ≡ true
unfolding all remove_pending write_state
all-write test fd st [] passes h = refl
all-write test fd st ((k, c) ∷ m) passes h =
    ground (arith, passes k c, all-write test fd st m passes)

pub all-write_same :
    (test : ℕ × PendingConnection → Bool) (fd : ℕ) (st : PendingState) (m : Table)
    → ((k : ℕ) (c : PendingConnection) → test (k, record c { state = st }) ≡ test (k, c))
    → all test (write_state fd st m) ≡ all test m
unfolding all write_state
all-write_same test fd st [] same = refl
all-write_same test fd st ((k, c) ∷ m) same =
    ground (arith, same k c, all-write_same test fd st m same)

-- What is found passes a test that all entries pass.
pub all-find :
    (test : ℕ × PendingConnection → Bool) (fd : ℕ) (m : Table) (c : PendingConnection)
    → find_pending fd m ≡ some c
    → all test m ≡ true
    → test (fd, c) ≡ true
unfolding all find_pending
all-find test fd [] c e h = ground arith
all-find test fd ((k, d) ∷ m) c e h = ground (arith, all-find test fd m c)

pub find-write :
    (fd : ℕ) (st : PendingState) (m : Table) (c : PendingConnection)
    → find_pending fd m ≡ some c
    → find_pending fd (write_state fd st m) ≡ some (record c { state = st })
unfolding find_pending write_state
find-write fd st [] c h = ground arith
find-write fd st ((k, d) ∷ m) c h = ground (arith, find-write fd st m c)

pub remove-find_none : (fd : ℕ) (m : Table) → find_pending fd m ≡ none → remove_pending fd m ≡ m
unfolding find_pending remove_pending
remove-find_none fd [] h = refl
remove-find_none fd ((k, c) ∷ m) h = ground (arith, remove-find_none fd m)

pub write-write :
    (fd : ℕ) (st st' : PendingState) (m : Table)
    → write_state fd st (write_state fd st' m) ≡ write_state fd st m
unfolding write_state
write-write fd st st' [] = refl
write-write fd st st' ((k, c) ∷ m) = ground (arith, write-write fd st st' m)
