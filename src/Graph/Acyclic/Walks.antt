-- ===== src/Graph/Acyclic/Walks.antt =====
-- Walks along the dependencies, and the part of the search's stack that a cycle error shows.
use debianform.Base.{
  Text, ◌<◌, List, [], ◌∷◌, ◌++◌, ◌≡◌, refl, ap, inl, inr, arith, count, text_eq, text_eq_iff,
  Bool-cases,
}
use debianform.Graph.Schedule.{Entries}
use debianform.Graph.Acyclic.{deps_of, stack_from}

abbrev pub DependsOn : Entries → Text → Text → Type 0
DependsOn entries x d = 0 < count d (deps_of entries x)

-- Each address of the list depends on the next one.
abbrev pub IsWalk : Entries → List Text → Type 0
IsWalk entries [] = Unit
IsWalk entries (x ∷ []) = Unit
IsWalk entries (x ∷ y ∷ rest) = DependsOn entries x y × IsWalk entries (y ∷ rest)

-- A walk from an address back to itself.
abbrev pub IsCycle : Entries → List Text → Type 0
IsCycle entries path =
    (a : Text) × (inner : List Text) × (path ≡ a ∷ inner ++ a ∷ []) × IsWalk entries path

-- The stack, its top first: each address is a dependency of the one below it.
abbrev pub IsStack : Entries → List Text → Type 0
IsStack entries [] = Unit
IsStack entries (x ∷ []) = Unit
IsStack entries (x ∷ y ∷ below) = DependsOn entries y x × IsStack entries (y ∷ below)

stack_from-append :
    (a : Text) (stack above rest : List Text)
    → stack_from a stack above ++ rest ≡ stack_from a stack (above ++ rest)
unfolding stack_from
stack_from-append a [] above rest = refl
stack_from-append a (x ∷ below) above rest =
    ground (arith, stack_from-append a below (x ∷ above) rest)

stack_from_head :
    (a : Text) (stack above : List Text)
    → 0 < count a stack
    → (inner : List Text) × (stack_from a stack above ≡ a ∷ inner)
unfolding stack_from count
stack_from_head a [] above h = absurd (omega arith)
stack_from_head a (x ∷ below) above h = elim (Bool-cases (text_eq x a)) [
  | inl e ↦ (above, ground (arith, text_eq_iff x a))
  | inr e ↦
      let (inner, p) = stack_from_head a below (x ∷ above) (ground arith) in (inner, ground arith)
]

IsWalk-stack_from :
    (entries : Entries) (a : Text) (stack : List Text) (z : Text) (walk : List Text)
    → IsStack entries (z ∷ stack)
    → IsWalk entries (z ∷ walk)
    → IsWalk entries (stack_from a stack (z ∷ walk))
unfolding stack_from
IsWalk-stack_from entries a [] z walk s w = w
IsWalk-stack_from entries a (x ∷ below) z walk s w = elim (Bool-cases (text_eq x a)) [
  | inl e ↦ rw e (s.0, w)
  | inr e ↦ rw e (IsWalk-stack_from entries a below x (z ∷ walk) s.1 (s.0, w))
]

-- Where `a` stands on the stack and is met again, the error's path is a cycle.
pub IsCycle-stack_from :
    (entries : Entries) (a : Text) (stack : List Text)
    → IsStack entries (a ∷ stack)
    → 0 < count a stack
    → IsCycle entries (stack_from a stack [] ++ a ∷ [])
IsCycle-stack_from entries a stack s h =
    let (inner, p) = stack_from_head a stack [] h in
    (
      a,
      inner,
      ap (λ (l : List Text). l ++ a ∷ []) p,
      rw (stack_from-append a stack [] (a ∷ [])) (IsWalk-stack_from entries a stack a [] s tt),
    )
