-- ===== src/Engine/Preparation/Hosts.antt =====
-- For which hosts prepareHostStates of internal/core/engine/engine.go leaves a state.
use mathlib.Core.List.{Perm, foldr}
use mathlib.Core.List.Perm
use mathlib.Core.Bool.{Bool-set}
use debianform.Base.{
  Text, text_eq, ℕ, List, [], ◌∷◌, none, some, Bool, true, false, ◌||◌, if◌then◌else◌, ◌≡◌, refl,
  sym, ◌∙◌, arith, contains, Result, ok, err,
}
use debianform.Base.Dict.{Dict, insert, has, has-insert}
use debianform.Ir.{HostSpec}
use debianform.Graph.{ResourceGraph}
use debianform.State.{State, Hashing}
use debianform.State.Moves.Resolve.{RealizedMove}
use debianform.Engine.{EngineError}
use debianform.Engine.Hosts.{Event}
use debianform.Engine.Hosts.Sequential.{run_in_order, run_in_order_cons, run_hosts-Sequential}
use debianform.Engine.Locks.Held.{names_of}
use debianform.Engine.Preparation.{Store, prepared_state, prepare_host, prepare_host_states}

-- Whether one of the hosts has the name.
abbrev has_name : Text → HostSpec → Bool → Bool
has_name x host found = text_eq host.name x || found

names-foldr :
    (x : Text) (hosts : List HostSpec)
    → contains (names_of hosts) x ≡ foldr (has_name x) false hosts
unfolding contains names_of
names-foldr x [] = refl
names-foldr x (host ∷ hosts) = cc (names-foldr x hosts)

or_comm : (a b c : Bool) → (a || (b || c)) ≡ (b || (a || c))
or_comm true true c = refl
or_comm true false c = refl
or_comm false b c = refl

contains-Perm :
    (x : Text) (hosts hosts' : List HostSpec)
    → Perm hosts hosts'
    → contains (names_of hosts) x ≡ contains (names_of hosts') x
contains-Perm x hosts hosts' p =
    names-foldr x hosts
    ∙ Perm.foldr-eq Bool-set (has_name x) (λ a b c. or_comm (text_eq a.name x) (text_eq b.name x) c)
        p false
    ∙ sym (names-foldr x hosts')

module _ (hashing : Hashing) (g : ResourceGraph) {W : Type 0} (store : Store W)
    (approved : List RealizedMove) where
  -- A host without an error has a state in the table.
  prepare_host_inserts :
      (host : HostSpec) (w : W) (prepared : Dict State)
      → (prepare_host hashing g store approved false host (w, prepared)).1 ≡ none
      → (st : State) × ((prepare_host hashing g store approved false host (w, prepared)).0.1
          ≡ insert host.name st prepared)
  unfolding prepare_host
  prepare_host_inserts host w prepared h = go ((store.read host.name w).1) refl
    where
      w' : W
      w' = (store.read host.name w).0

      go :
          (r : Result EngineError State)
          → (store.read host.name w).1 ≡ r
          → (st : State) × ((prepare_host hashing g store approved false host (w, prepared)).0.1
              ≡ insert host.name st prepared)
      go (err x) e = absurd (ground (arith, h, e))
      go (ok st) e = made (prepared_state hashing g approved host st) refl
        where
          made :
              (p : Result EngineError (State × Bool))
              → prepared_state hashing g approved host st ≡ p
              → (st' : State) × ((prepare_host hashing g store approved false host
                    (w, prepared)).0.1
                  ≡ insert host.name st' prepared)
          made (err x) e2 = absurd (ground (arith, h, e, e2))
          made (ok (st', false)) e2 = (st', rw (prepare_host, e, e2) refl)
          made (ok (st', true)) e2 = written ((store.write host.name st' w').1) refl
            where
              written :
                  (r : Result EngineError State)
                  → (store.write host.name st' w').1 ≡ r
                  → (st'' : State) × ((prepare_host hashing g store approved false host
                        (w, prepared)).0.1
                      ≡ insert host.name st'' prepared)
              written (err x) e3 = absurd (ground (arith, h, e, e2, e3))
              written (ok committed) e3 = (committed, rw (prepare_host, e, e2, e3) refl)

  -- The sequential loop leaves a state for each of its hosts.
  in_order_has :
      (order : List HostSpec) (w w' : W) (prepared prepared' : Dict State) (x : Text)
      → run_in_order (prepare_host hashing g store approved) order (w, prepared)
        ≡ some (w', prepared')
      → has x prepared' ≡ (contains (names_of order) x || has x prepared)
  unfolding contains names_of
  in_order_has [] w w' prepared prepared' x h =
      let same : prepared ≡ prepared' = unfold run_in_order in ground (arith, h) in rw same refl
  in_order_has (host ∷ order) w w' prepared prepared' x h =
      let (fine, later) =
        run_in_order_cons (prepare_host hashing g store approved) host order (w, prepared)
          (w', prepared') h in
      let (st, made) = prepare_host_inserts host w prepared fine in
      let next = (prepare_host hashing g store approved false host (w, prepared)).0 in
      let rest = in_order_has order next.0 w' next.1 prepared' x later in
      let added : has x next.1 ≡ (if text_eq host.name x then true else has x prepared) =
        rw made (has-insert host.name x st prepared) in
      ground (arith, rest, added)

-- A preparation of the states that returns no error leaves a state for each of the hosts, and for
-- no other, in whatever order the workers act.
pub prepare_host_states-has :
    (hashing : Hashing) (g : ResourceGraph) {W : Type 0} (store : Store W)
    (approved : List RealizedMove) (parallel : ℕ) (events : List Event) (hosts : List HostSpec)
    (w w' : W) (prepared : Dict State) (x : Text)
    → prepare_host_states hashing g store approved parallel events hosts w
      ≡ some ((w', prepared), none)
    → has x prepared ≡ contains (names_of hosts) x
unfolding prepare_host_states has
prepare_host_states-has hashing g store approved parallel events hosts w w' prepared x h =
    let (order, p, in_order) =
      run_hosts-Sequential (prepare_host hashing g store approved) parallel events hosts (w, [])
        (w', prepared) h in
    let all = in_order_has hashing g store approved order w w' [] prepared x in_order in
    let same = contains-Perm x order hosts p in ground (arith, all, same)
