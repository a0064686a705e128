-- ===== src/Engine/Locks/InMemory.antt =====
-- The locks of the in-memory backend, internal/core/engine/memory.go: they are as the engine expects.
use debianform.Base.{
  Text, Bool, true, false, ◌≡◌, refl, Option, none, some, ok, err, arith, text_eq, text_eq_refl,
  inl, inr, ◌⊎◌, Bool-cases,
}
use debianform.Base.Dict.{get, insert, delete, get-insert, get-lookup, lookup-delete}
use debianform.Engine.{EngineError, already_locked}
use debianform.Engine.Memory.{MemoryBackend, lock, unlock}
use debianform.Engine.Locks.{LockService}

-- Lock does not look at the context.
unfoldable pub memory_lock : Bool → Text → MemoryBackend → MemoryBackend × Option EngineError
unfolding lock
memory_lock is_cancelled host b = elim (lock b host) [ ok b' ↦ (b', none) | err e ↦ (b, some e) ]

-- memoryLock.Unlock never fails.
unfoldable pub memory_unlock : Text → MemoryBackend → MemoryBackend × Option EngineError
unfolding unlock
memory_unlock host b = (unlock b host, none)

abbrev pub is_memory_locked : Text → MemoryBackend → Bool
is_memory_locked host b = get false host b.locked

memory_lock_cases :
    (is_cancelled : Bool) (host : Text) (b : MemoryBackend)
    → ((get false host b.locked ≡ false)
        × (memory_lock is_cancelled host b
            ≡ (record b { locked = insert host true b.locked }, none)))
      ⊎ (memory_lock is_cancelled host b ≡ (b, some (already_locked host)))
unfolding memory_lock lock
memory_lock_cases is_cancelled host b = elim (Bool-cases (get false host b.locked)) [
  | inl e ↦ inr (ground (arith, e))
  | inr e ↦ inl (e, ground (arith, e))
]

pub memory_unlock_frees :
    (host : Text) (b : MemoryBackend) → is_memory_locked host (memory_unlock host b).0 ≡ false
unfolding memory_unlock unlock
memory_unlock_frees host b = ground (
  arith,
  get-lookup false host (delete host b.locked),
  lookup-delete host host b.locked,
  text_eq_refl host,
)

pub memory_unlock_apart :
    (host other : Text) (b : MemoryBackend)
    → text_eq host other ≡ false
    → is_memory_locked other (memory_unlock host b).0 ≡ is_memory_locked other b
unfolding memory_unlock unlock
memory_unlock_apart host other b apart = ground (
  arith,
  get-lookup false other (delete host b.locked),
  get-lookup false other b.locked,
  lookup-delete host other b.locked,
  apart,
)

pub memory_lock_takes :
    (c : Bool) (host : Text) (b : MemoryBackend)
    → (memory_lock c host b).1 ≡ none
    → (is_memory_locked host b ≡ false) × (is_memory_locked host (memory_lock c host b).0 ≡ true)
memory_lock_takes c host b e = elim (memory_lock_cases c host b) [
  | inl (free, same) ↦
      (free, rw same (ground (arith, get-insert false host host true b.locked, text_eq_refl host)))
  | inr same ↦ absurd (ground (arith, e, same))
]

pub memory_lock_refused :
    (c : Bool) (host : Text) (b : MemoryBackend) (problem : EngineError)
    → (memory_lock c host b).1 ≡ some problem
    → is_memory_locked host (memory_lock c host b).0 ≡ is_memory_locked host b
memory_lock_refused c host b problem e = elim (memory_lock_cases c host b) [
  | inl (free, same) ↦ absurd (ground (arith, e, same))
  | inr same ↦ rw same refl
]

pub memory_lock_apart :
    (c : Bool) (host other : Text) (b : MemoryBackend)
    → text_eq host other ≡ false
    → is_memory_locked other (memory_lock c host b).0 ≡ is_memory_locked other b
memory_lock_apart c host other b apart = elim (memory_lock_cases c host b) [
  | inl (free, same) ↦ rw same (ground (arith, get-insert false host other true b.locked, apart))
  | inr same ↦ rw same refl
]

-- The in-memory backend fills the engine's interface of locks.
abbrev pub memory_locks : LockService MemoryBackend
memory_locks = record {
  lock = memory_lock;
  unlock = memory_unlock;
  is_locked = is_memory_locked;
  lock_takes = memory_lock_takes;
  lock_refused = memory_lock_refused;
  lock_apart = memory_lock_apart;
  unlock_frees = λ host b e. memory_unlock_frees host b;
  unlock_apart = memory_unlock_apart;
}
