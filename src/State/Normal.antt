-- ===== src/State/Normal.antt =====
-- What a state that Normalize accepts looks like.
use debianform.Base.{
  Text, ℕ, ◌+◌, ◌%◌, ◌^◌, List, [], ◌∷◌, ◌≡◌, ◌∙◌, refl, arith, false, text_eq_iff, is_empty,
  Result, ok, err, >>=-eq-ok, ap,
}
use debianform.Base.Dict.{Dict, keys}
use debianform.State.{Resource, State, StateError, version, adopt_hosts, normalize, prepare_write}

abbrev pub AllOwned : Text → Dict Resource → Type 0
AllOwned host [] = Unit
AllOwned host ((address, resource) ∷ rest) = (resource.host ≡ host) × AllOwned host rest

-- The state is of the version that is written, and it and its resources belong to the host.
pub record IsNormal (host : Text) (st : State) : Type 0 where
  pub named : is_empty host ≡ false
  pub current : st.version ≡ version
  pub owner : st.host ≡ host
  pub owned : AllOwned host st.resources

adopt_hosts_cons :
    (host address : Text) (resource : Resource) (rest out : Dict Resource)
    → adopt_hosts host ((address, resource) ∷ rest) ≡ ok out
    → (rest' : Dict Resource) × (adopt_hosts host rest ≡ ok rest')
      × (out ≡ (address, record resource { host = host }) ∷ rest')
adopt_hosts_cons host address resource rest out h = go (adopt_hosts host rest) refl
  where
    go :
        (r : Result StateError (Dict Resource))
        → adopt_hosts host rest ≡ r
        → (rest' : Dict Resource) × (adopt_hosts host rest ≡ ok rest')
          × (out ≡ (address, record resource { host = host }) ∷ rest')
    go (ok rest') e = (rest', e, unfold adopt_hosts in ground (arith, h, e))
    go (err x) e = absurd (unfold adopt_hosts in ground (arith, h, e))

adopt_hosts-AllOwned :
    (host : Text) (rs out : Dict Resource) → adopt_hosts host rs ≡ ok out → AllOwned host out
adopt_hosts-AllOwned host [] out h = let e : [] ≡ out = unfold adopt_hosts in cc in rw (← e) tt
adopt_hosts-AllOwned host ((address, resource) ∷ rest) out h =
    let (rest', e, same) = adopt_hosts_cons host address resource rest out h in
    rw same (refl, adopt_hosts-AllOwned host rest rest' e)

adopt_hosts-keys :
    (host : Text) (rs out : Dict Resource) → adopt_hosts host rs ≡ ok out → keys out ≡ keys rs
unfolding keys
adopt_hosts-keys host [] out h = let e : [] ≡ out = unfold adopt_hosts in cc in rw (← e)
adopt_hosts-keys host ((address, resource) ∷ rest) out h =
    let (rest', e, same) = adopt_hosts_cons host address resource rest out h in
    rw same (ap (λ (l : List Text). address ∷ l) (adopt_hosts-keys host rest rest' e))

adopt_hosts_fixed :
    (host : Text) (rs : Dict Resource) → AllOwned host rs → adopt_hosts host rs ≡ ok rs
unfolding adopt_hosts
adopt_hosts_fixed host [] h = refl
adopt_hosts_fixed host ((address, resource) ∷ rest) (now, later) =
    ground (arith, adopt_hosts_fixed host rest later, now, text_eq_iff resource.host host)

-- The tests that a successful run passed, and the resources that it made.
normalize_parts :
    (st st' : State) (host : Text)
    → normalize st host ≡ ok st'
    → (is_empty host ≡ false)
      × (st.version ≡ version)
      × (st.host ≡ host)
      × (adopt_hosts host st.resources ≡ ok st'.resources)
      × (st' ≡ record st { resources = st'.resources })
unfolding normalize
normalize_parts st st' host h = go (adopt_hosts host st.resources) refl
  where
    go :
        (r : Result StateError (Dict Resource))
        → adopt_hosts host st.resources ≡ r
        → (is_empty host ≡ false)
          × (st.version ≡ version)
          × (st.host ≡ host)
          × (adopt_hosts host st.resources ≡ ok st'.resources)
          × (st' ≡ record st { resources = st'.resources })
    go (ok rs) e = ground (arith, h, e, text_eq_iff st.host host)
    go (err x) e = absurd (ground (arith, h, e))

-- A state that Normalize returns is normal, has the resources' addresses of the given one, and
-- keeps its serial.
pub normalize-IsNormal :
    (st st' : State) (host : Text)
    → normalize st host ≡ ok st'
    → IsNormal host st' × (keys st'.resources ≡ keys st.resources) × (st'.serial ≡ st.serial)
normalize-IsNormal st st' host h =
    let (named, current, owner, made, same) = normalize_parts st st' host h in
    (
      record {
        named = named;
        current = ap (λ (s : State). s.version) same ∙ current;
        owner = ap (λ (s : State). s.host) same ∙ owner;
        owned = adopt_hosts-AllOwned host st.resources st'.resources made;
      },
      adopt_hosts-keys host st.resources st'.resources made,
      ap (λ (s : State). s.serial) same,
    )

-- A normal state is returned as it is.
pub normalize_fixed : (st : State) (host : Text) → IsNormal host st → normalize st host ≡ ok st
unfolding normalize
normalize_fixed st host n = ground (
  arith,
  adopt_hosts_fixed host st.resources n.owned,
  text_eq_iff st.host host,
  n.named,
  n.current,
  n.owner,
)

-- What PrepareWrite returns is normal, bears the time of the write, has the next serial, which wraps
-- at 64 bits, and holds the same addresses.
pub prepare_write-IsNormal :
    (now : Text) (st st' : State) (host : Text)
    → prepare_write now st host ≡ ok st'
    → IsNormal host st'
      × (st'.serial ≡ (st.serial + 1) % 2 ^ 64)
      × (st'.updated_at ≡ now)
      × (keys st'.resources ≡ keys st.resources)
unfolding prepare_write
prepare_write-IsNormal now st st' host h =
    let (mid, e, k) = >>=-eq-ok (normalize st host) _ h in
    let (n, same, serial) = normalize-IsNormal st mid host e in
    let made : record mid { updated_at = now; serial = (mid.serial + 1) % 2 ^ 64 } ≡ st' = cc k in
    rw (← made) (
      record { named = n.named; current = n.current; owner = n.owner; owned = n.owned },
      ap (λ (n : ℕ). (n + 1) % 2 ^ 64) serial,
      refl,
      same,
    )
