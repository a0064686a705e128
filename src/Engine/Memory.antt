-- ===== src/Engine/Memory.antt =====
-- The in-memory backend of internal/core/engine/memory.go. Its mutex makes each method one step.
use debianform.Base.{
  Text, [], ◌+◌, ◌%◌, ◌^◌, ◌≡◌, refl, arith, none, some, Bool, true, false, if◌then◌else◌, text_eq,
  text_eq_refl, Result, ok, err, ◌>>=◌, >>=-eq-ok,
}
use debianform.Base.Dict.{
  Dict, insert, lookup, delete, get, get-insert, lookup-insert, get-lookup, lookup-delete,
}
use debianform.State.{State, StateError, empty, prepare_write}
use debianform.State.Normal.{IsNormal, prepare_write-IsNormal}
use debianform.Engine.{EngineError, already_locked}

pub record MemoryBackend : Type 0 where
  pub states : Dict State
  pub locked : Dict Bool

-- NewMemoryBackend
abbrev pub new_memory_backend : MemoryBackend
new_memory_backend = record { states = []; locked = [] }

unfoldable pub read : MemoryBackend → Text → State
unfolding empty
read b host = elim (lookup host b.states) [ some st ↦ st | none ↦ empty host ]

-- The committed state goes into the table and back to the caller.
unfoldable pub write :
    Text → MemoryBackend → Text → State → Result StateError (MemoryBackend × State)
unfolding prepare_write
write now b host st = do
  committed ← prepare_write now st host
  ok (record b { states = insert host committed b.states }, committed)

unfoldable pub lock : MemoryBackend → Text → Result EngineError MemoryBackend
lock b host =
    if get false host b.locked
    then err (already_locked host)
    else ok (record b { locked = insert host true b.locked })

unfoldable pub unlock : MemoryBackend → Text → MemoryBackend
unlock b host = record b { locked = delete host b.locked }

-- A successful write is what the next read of the host returns: normal, of the time of the write,
-- and with the next serial, which wraps at 64 bits. Another host reads as before, and the locks stay.
pub read-write :
    (now : Text) (b b' : MemoryBackend) (host other : Text) (st committed : State)
    → text_eq host other ≡ false
    → write now b host st ≡ ok (b', committed)
    → (read b' host ≡ committed)
      × IsNormal host committed
      × (committed.serial ≡ (st.serial + 1) % 2 ^ 64)
      × (read b' other ≡ read b other)
      × (b'.locked ≡ b.locked)
unfolding write
read-write now b b' host other st committed apart h =
    let (made, e, k) = >>=-eq-ok (prepare_write now st host) _ h in
    let same : made ≡ committed = ground (arith, k) in
    let stored : record b { states = insert host made b.states } ≡ b' = ground (arith, k) in
    let (normal, serial, _, _) = prepare_write-IsNormal now st made host e in
    rw (← same, ← stored)
      (
        unfold read in ground (arith, lookup-insert host host made b.states, text_eq_refl host),
        normal,
        serial,
        unfold read in ground (arith, lookup-insert host other made b.states, apart),
        refl,
      )

-- A lock of a free host succeeds and is exclusive: until the host is unlocked, a second lock of it
-- fails; another host can be locked exactly when it could before; after the unlocking of it the
-- host can be locked again.
pub lock-exclusive :
    (b b' : MemoryBackend) (host other : Text)
    → text_eq host other ≡ false
    → lock b host ≡ ok b'
    → (get false host b.locked ≡ false)
      × (lock b' host ≡ err (already_locked host))
      × (get false other b'.locked ≡ get false other b.locked)
      × (get false host (unlock b' host).locked ≡ false)
unfolding lock unlock
lock-exclusive b b' host other apart h =
    let held = insert host true b.locked in
    let free : get false host b.locked ≡ false = ground (arith, h) in
    let stored : record b { locked = held } ≡ b' = ground (arith, h, free) in
    rw (← stored) (
      free,
      ground (arith, get-insert false host host true b.locked, text_eq_refl host),
      ground (arith, get-insert false host other true b.locked, apart),
      ground (
        arith,
        get-lookup false host (delete host held),
        lookup-delete host host held,
        text_eq_refl host,
      ),
    )
