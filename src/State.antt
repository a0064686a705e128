-- ===== src/State.antt =====
-- The recorded state of a host: internal/core/state/state.go.
--
-- A map or a list is a value here, so the copies that cloneMap, cloneValue and cloneState make are
-- the values themselves. Hashing, the JSON encoder and the clock are parameters. The serial is a Go
-- int, kept as its 64 bits read without a sign, so that `Serial++` wraps as it does there; no other
-- code computes with it. The version is a natural number: it is only compared with the current one,
-- and a negative version in a state file would be refused as 0 is.
pub mod Moves
pub mod Redaction
pub mod Normal
use debianform.Base.{
  Text, text, ℕ, suc, ◌+◌, ◌%◌, ◌^◌, List, [], ◌∷◌, Option, none, some, Bool, true, false, not,
  ◌||◌, length, ltb, ◌==◌, if◌then◌else◌, text_eq, is_empty, Result, ok, err, ◌>>=◌, pos,
}
use debianform.Base.Dict.{Dict, lookup, insert, delete}
use debianform.Value.{Attributes, str, num, as_string, as_bool}
use debianform.Ir.{LifecycleSpec, HostFacts}

pub record Resource : Type 0 where
  pub host : Text
  pub kind : Text
  pub provider_type : Text
  pub provider_address : Text
  pub ownership : Text
  pub lifecycle : Option LifecycleSpec
  pub desired : Attributes
  pub desired_digest : Text
  pub observed : Attributes
  pub updated_at : Text
  pub order : ℕ
  pub depends_on : List Text

pub record State : Type 0 where
  pub version : ℕ
  pub host : Text
  pub serial : ℕ
  pub updated_at : Text
  pub facts : Option HostFacts
  pub resources : Dict Resource

-- The constant `Version`.
abbrev pub version : ℕ
version = 2

pub data StateError : Type 0 where
  no_host empty_host : StateError
  newer_version unsupported_version : ℕ → StateError
  other_host : Text → StateError
  foreign_resource : Text → Text → StateError

-- Empty
unfoldable pub empty : Text → State
empty host = record {
  version = version;
  host = host;
  serial = 0;
  updated_at = [];
  facts = none;
  resources = [];
}

-- The loop of Normalize: a resource without a host gets the state's.
pub adopt_hosts : Text → Dict Resource → Result StateError (Dict Resource)
adopt_hosts host [] = ok []
adopt_hosts host ((address, resource) ∷ rest) =
    let later : Result StateError (Dict Resource) = (do
      rest' ← adopt_hosts host rest
      ok ((address, record resource { host = host }) ∷ rest')) in
    if is_empty resource.host || text_eq resource.host host
    then later
    else err (foreign_resource address resource.host)

unfoldable pub normalize : State → Text → Result StateError State
unfolding adopt_hosts
normalize st host =
    if is_empty host
    then err no_host
    else if ltb version st.version
    then err (newer_version st.version)
    else if not (st.version == version)
    then err (unsupported_version st.version)
    else if is_empty st.host
    then err empty_host
    else if not (text_eq st.host host)
    then err (other_host st.host)
    else (do resources ← adopt_hosts host st.resources; ok (record st { resources = resources }))

-- PrepareWrite, at the time `now`.
unfoldable pub prepare_write : Text → State → Text → Result StateError State
unfolding normalize
prepare_write now st host = do
  st' ← normalize st host
  ok (record st' { updated_at = now; serial = (st'.serial + 1) % 2 ^ 64 })

-- What the code takes from crypto/sha256 and encoding/json.
pub record Hashing : Type 0 where
  pub sha256_hex : Text → Text
  pub marshal : Attributes → Text

module _ (hashing : Hashing) where
  -- A string under `content` is replaced by its hash and its length.
  pub hash_content : Attributes → Attributes
  hash_content desired = elim (as_string (lookup (text "content") desired)) [
    | none ↦ desired
    | some content ↦ insert (text "content_bytes") (num (pos (length content))) (
        insert (text "content_sha256") (str (hashing.sha256_hex content))
          (delete (text "content") desired))
  ]

  -- SanitizeDesired, and SanitizeObserved, which is the same.
  unfoldable pub sanitize_desired : Attributes → Attributes
  unfolding hash_content as_string as_bool
  sanitize_desired desired =
      let out = hash_content desired in
      if as_bool (lookup (text "sensitive") desired)
      then delete (text "summary") (delete (text "source_path") out)
      else out

  -- Digest and DesiredDigest.
  unfoldable pub desired_digest : Attributes → Text
  unfolding sanitize_desired
  desired_digest desired = hashing.sha256_hex (hashing.marshal (sanitize_desired desired))

  -- Decode: nothing is an empty state; `unmarshal` stands for the JSON decoder.
  unfoldable pub decode : (Text → Result StateError State) → Text → Text → Result StateError State
  unfolding normalize empty
  decode unmarshal bytes host =
      if is_empty bytes then ok (empty host) else (do st ← unmarshal bytes; normalize st host)
