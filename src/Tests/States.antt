-- ===== src/Tests/States.antt =====
-- The recorded state of the host, a move of its component, and the in-memory backend.
use debianform.Base.{
  Text, text, ◌+◌, ◌%◌, ◌^◌, [], ◌∷◌, ◌≡◌, ◌≢◌, refl, none, Bool, true, false, ok, err, Result,
  count, text_eq, text_eq_iff, arith, ◌≤◌, sort_strings, has_prefix, contains,
}
use debianform.Base.Dict.{Dict, keys, lookup, get, has, insert, delete}
use debianform.Value.{Attributes, as_string, as_bool}
use debianform.Ir.{MovedSpec}
use debianform.Graph.Schedule.{no_source}
use debianform.State.{State, normalize, prepare_write, sanitize_desired}
use debianform.State.Normal.{IsNormal, normalize-IsNormal, normalize_fixed, prepare_write-IsNormal}
use debianform.State.Redaction.{IsHashed, sanitize_desired-sensitive, sanitize_desired_other}
use debianform.State.Moves.{
  MoveError, validate_and_order_moves, final_move_targets, component_from_prefix, matching_keys,
  replace_address_prefix, matches,
}
use debianform.State.Moves.Resolve.{MoveResult, resolve_moves}
use debianform.State.Moves.Resolve.Keeps.{Keeps, resolve_moves-Keeps}
use debianform.Engine.{already_locked}
use debianform.Engine.Memory.{
  MemoryBackend, new_memory_backend, read, write, lock, unlock, read-write, lock-exclusive,
}
use debianform.Tests.{hashing, old_address, adopted_resource, dependent_resource, small_state}

abbrev web : Text
web = text "web"

abbrev owned_state : State
owned_state = record small_state {
  resources =
      (old_address, adopted_resource)
      ∷ (text "site", record dependent_resource { host = web })
      ∷ [];
}

abbrev written_state : State
written_state = record owned_state { updated_at = text "now"; serial = 8 }

small_state_normal : normalize small_state web ≡ ok owned_state
unfolding normalize text text_eq
small_state_normal = refl

normalize-IsNormal_example :
    IsNormal web owned_state
    × (keys owned_state.resources ≡ keys small_state.resources)
    × (owned_state.serial ≡ small_state.serial)
normalize-IsNormal_example = normalize-IsNormal small_state owned_state web small_state_normal

owned_state-IsNormal : IsNormal web owned_state
unfolding text
owned_state-IsNormal = record {
  named = refl;
  current = refl;
  owner = refl;
  owned = (refl, (refl, tt));
}

normalize_fixed_example : normalize owned_state web ≡ ok owned_state
normalize_fixed_example = normalize_fixed owned_state web owned_state-IsNormal

small_state_written : prepare_write (text "now") small_state web ≡ ok written_state
unfolding prepare_write text text_eq
small_state_written = refl

prepare_write-IsNormal_example :
    IsNormal web written_state
    × (written_state.serial ≡ (small_state.serial + 1) % 2 ^ 64)
    × (written_state.updated_at ≡ text "now")
    × (keys written_state.resources ≡ keys small_state.resources)
prepare_write-IsNormal_example =
    prepare_write-IsNormal (text "now") small_state written_state web small_state_written

abbrev secret : Attributes
secret = adopted_resource.desired

secret_is_sensitive : as_bool (lookup (text "sensitive") secret) ≡ true
unfolding as_bool lookup text_eq text
secret_is_sensitive = refl

sanitize_desired-sensitive_example :
    (lookup (text "source_path") (sanitize_desired hashing secret) ≡ none)
    × (lookup (text "summary") (sanitize_desired hashing secret) ≡ none)
    × IsHashed hashing
        (as_string (lookup (text "content") secret))
        secret
        (sanitize_desired hashing secret)
sanitize_desired-sensitive_example = sanitize_desired-sensitive hashing secret secret_is_sensitive

-- A move of the component.
abbrev declaration : MovedSpec
declaration = record {
  from = text "host.web.components.old";
  to = text "host.web.components.new";
  source = no_source;
  from_source = no_source;
  to_source = no_source;
}

abbrev desired_components : Dict Bool
desired_components = (text "host.web.components.new", true) ∷ []

-- The state that a result holds.
abbrev moved_or_none : Result MoveError MoveResult → MoveResult
moved_or_none (ok r) = r
moved_or_none (err e) = record { state = small_state; moves = [] }

abbrev moved : MoveResult
moved = moved_or_none (resolve_moves hashing small_state (declaration ∷ []) desired_components [])

component_moves :
    resolve_moves hashing small_state (declaration ∷ []) desired_components [] ≡ ok moved
unfolding resolve_moves text text_eq keys has lookup get insert delete sort_strings has_prefix
    normalize validate_and_order_moves final_move_targets component_from_prefix matching_keys
    replace_address_prefix contains matches
component_moves = refl

addresses_differ : text_eq old_address (text "site") ≡ false
unfolding text_eq text
addresses_differ = refl

small_state_distinct : (x : Text) → count x (keys small_state.resources) ≤ 1
unfolding keys count
small_state_distinct x =
    ground (arith, addresses_differ, text_eq_iff old_address x, text_eq_iff (text "site") x)

resolve_moves-Keeps_example : Keeps small_state.resources moved.state.resources
resolve_moves-Keeps_example =
    resolve_moves-Keeps hashing small_state (declaration ∷ []) desired_components [] moved
      component_moves small_state_distinct

-- The backend after a write, and after a lock.
abbrev stored : MemoryBackend
stored = record { states = (web, written_state) ∷ []; locked = [] }

abbrev held : MemoryBackend
held = record { states = []; locked = (web, true) ∷ [] }

web_written : write (text "now") new_memory_backend web small_state ≡ ok (stored, written_state)
unfolding write text text_eq insert
web_written = refl

web_locked : lock new_memory_backend web ≡ ok held
unfolding lock text text_eq insert get
web_locked = refl

web_is_not_db : text_eq web (text "db") ≡ false
unfolding text_eq text
web_is_not_db = refl

read-write_example :
    (read stored web ≡ written_state)
    × IsNormal web written_state
    × (written_state.serial ≡ (small_state.serial + 1) % 2 ^ 64)
    × (read stored (text "db") ≡ read new_memory_backend (text "db"))
    × (stored.locked ≡ new_memory_backend.locked)
read-write_example =
    read-write (text "now") new_memory_backend stored web (text "db") small_state written_state
      web_is_not_db web_written

lock-exclusive_example :
    (get false web new_memory_backend.locked ≡ false)
    × (lock held web ≡ err (already_locked web))
    × (get false (text "db") held.locked ≡ get false (text "db") new_memory_backend.locked)
    × (get false web (unlock held web).locked ≡ false)
lock-exclusive_example =
    lock-exclusive new_memory_backend held web (text "db") web_is_not_db web_locked

differ : (a b : Text) → text_eq a b ≡ false → a ≢ b
differ a b h e = ground (arith, h, e, text_eq_iff a b)

abbrev mode : Text
mode = text "mode"

mode_differs :
    (text_eq mode (text "content") ≡ false)
    × (text_eq mode (text "content_sha256") ≡ false)
    × (text_eq mode (text "content_bytes") ≡ false)
    × (text_eq mode (text "source_path") ≡ false)
    × (text_eq mode (text "summary") ≡ false)
unfolding text text_eq
mode_differs = (refl, refl, refl, refl, refl)

mode_is_other :
    (mode ≢ text "content")
    × (mode ≢ text "content_sha256")
    × (mode ≢ text "content_bytes")
    × (mode ≢ text "source_path")
    × (mode ≢ text "summary")
mode_is_other =
    let (a, b, c, d, e) = mode_differs in
    (
      differ mode (text "content") a,
      differ mode (text "content_sha256") b,
      differ mode (text "content_bytes") c,
      differ mode (text "source_path") d,
      differ mode (text "summary") e,
    )

sanitize_desired_other_example : lookup mode (sanitize_desired hashing secret) ≡ lookup mode secret
sanitize_desired_other_example =
    sanitize_desired_other hashing mode secret (mode_is_other.0) (mode_is_other.1) (mode_is_other.2)
      (mode_is_other.3) (mode_is_other.4)
