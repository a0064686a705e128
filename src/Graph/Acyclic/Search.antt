-- ===== src/Graph/Acyclic/Search.antt =====
-- The depth-first search ends, and finds either a cycle or an order of all that it visited.
use debianform.Base.{
  Text, ℕ, zero, suc, ◌+◌, ◌≤◌, ◌<◌, List, [], ◌∷◌, ◌≡◌, refl, inl, inr, arith, count,
  count-cons_self, text_eq_iff, length, length-le_of_count, Result, ok, err, ◌>>=◌, ◌⊎◌,
}
use debianform.Base.Dict.{get, get-insert, insert, keys, length-keys}
use debianform.Graph.Schedule.{Entries, ScheduleError, cycle}
use debianform.Graph.Acyclic.{Marks, Mark, unvisited, visiting, visited, deps_of, visit_all, visit}
use debianform.Graph.Acyclic.Walks.{DependsOn, IsCycle, IsStack, IsCycle-stack_from}

-- Newest first: each address stands behind all of its dependencies.
abbrev pub IsOrdered : Entries → List Text → Type 0
IsOrdered entries [] = Unit
IsOrdered entries (x ∷ older) =
    ((d : Text) → DependsOn entries x d → 0 < count d older) × IsOrdered entries older

module _ (entries : Entries)
    (known : (x d : Text) → DependsOn entries x d → 0 < count d (keys entries)) where
  -- The marks say what is on the stack and what is finished.
  pub record Inv (stack finished : List Text) (marks : Marks) : Type 0 where
    pub linked : IsStack entries stack
    pub keyed : (x : Text) → 0 < count x stack → 0 < count x (keys entries)
    pub once : (x : Text) → count x stack ≤ 1
    pub open_marks : (x : Text) → get unvisited x marks ≡ visiting → 0 < count x stack
    pub stack_marks : (x : Text) → 0 < count x stack → get unvisited x marks ≡ visiting
    pub done_marks : (x : Text) → get unvisited x marks ≡ visited → 0 < count x finished
    pub finished_marks : (x : Text) → 0 < count x finished → get unvisited x marks ≡ visited
    pub ordered : IsOrdered entries finished

  abbrev ErrorPost : ScheduleError → Type 0
  ErrorPost (cycle path source) = IsCycle entries path
  ErrorPost _ = ⊥

  -- What a call for the addresses `targets` leaves behind.
  abbrev pub Post : List Text → List Text → List Text → Result ScheduleError Marks → Type 0
  Post stack finished targets (ok marks) =
      (finished' : List Text) × Inv stack finished' marks
      × ((x : Text) → 0 < count x finished → 0 < count x finished')
      × ((x : Text) → 0 < count x targets → 0 < count x finished')
  Post stack finished targets (err e) = ErrorPost e

  -- The stack fits into the entries, so the fuel lasts.
  stack_length :
      (stack finished : List Text) (marks : Marks)
      → Inv stack finished marks
      → length stack ≤ length entries
  stack_length stack finished marks inv = omega (
    arith,
    length-keys entries,
    length-le_of_count stack (keys entries) (λ a. ground (arith, inv.keyed a, inv.once a)),
  )

  module _ (stack finished : List Text) (marks : Marks) (inv : Inv stack finished marks) (a : Text)
      (key : 0 < count a (keys entries)) (link : IsStack entries (a ∷ stack))
      (new : get unvisited a marks ≡ unvisited) where
    open inv use {linked, keyed, once, open_marks, stack_marks, done_marks, finished_marks, ordered}

    Inv-push : Inv (a ∷ stack) finished (insert a visiting marks)
    unfolding count
    Inv-push = record {
      linked = link;
      keyed = λ x h. ground (arith, keyed x, text_eq_iff a x);
      once = λ x. ground (arith, once x, stack_marks x, text_eq_iff a x);
      open_marks = λ x h.
          ground (arith, open_marks x, get-insert unvisited a x visiting marks, text_eq_iff a x);
      stack_marks = λ x h.
          ground (arith, stack_marks x, get-insert unvisited a x visiting marks, text_eq_iff a x);
      done_marks = λ x h.
          ground (arith, done_marks x, get-insert unvisited a x visiting marks, text_eq_iff a x);
      finished_marks = λ x h.
          ground
            (arith, finished_marks x, get-insert unvisited a x visiting marks, text_eq_iff a x);
      ordered = ordered;
    }

  module _ (stack finished : List Text) (marks : Marks) (a : Text)
      (inv : Inv (a ∷ stack) finished marks) (below : IsStack entries stack)
      (deps_done : (d : Text) → DependsOn entries a d → 0 < count d finished) where
    open inv use {linked, keyed, once, open_marks, stack_marks, done_marks, finished_marks, ordered}

    Inv-pop : Inv stack (a ∷ finished) (insert a visited marks)
    unfolding count
    Inv-pop = record {
      linked = below;
      keyed = λ x h. ground (arith, keyed x, text_eq_iff a x);
      once = λ x. ground (arith, once x, text_eq_iff a x);
      open_marks = λ x h.
          ground (arith, open_marks x, get-insert unvisited a x visited marks, text_eq_iff a x);
      stack_marks = λ x h.
          ground
            (arith, once x, stack_marks x, get-insert unvisited a x visited marks, text_eq_iff a x);
      done_marks = λ x h.
          ground (arith, done_marks x, get-insert unvisited a x visited marks, text_eq_iff a x);
      finished_marks = λ x h.
          ground (arith, finished_marks x, get-insert unvisited a x visited marks, text_eq_iff a x);
      ordered = (deps_done, ordered);
    }

  IsStack-tail :
      (a : Text) (stack : List Text) → IsStack entries (a ∷ stack) → IsStack entries stack
  IsStack-tail a [] h = tt
  IsStack-tail a (y ∷ stack) h = h.1

  Mark-cases : (m : Mark) → (m ≡ unvisited) ⊎ ((m ≡ visiting) ⊎ (m ≡ visited))
  Mark-cases unvisited = inl refl
  Mark-cases visiting = inr (inl refl)
  Mark-cases visited = inr (inr refl)

  -- One address of the loop, and then the rest.
  Post-cons :
      (search : Text → Marks → Result ScheduleError Marks) (stack finished : List Text) (d : Text)
      (deps : List Text) (r : Result ScheduleError Marks)
      → Post stack finished (d ∷ []) r
      → ((later : List Text) (marks : Marks)
          → Inv stack later marks
          → Post stack later deps (visit_all search deps marks))
      → Post stack finished (d ∷ deps) (r >>= visit_all search deps)
  Post-cons search stack finished d deps (ok marks) (later, inv, kept, seen) rest =
      Post-weaken (visit_all search deps marks) (rest later marks inv)
    where
      Post-weaken :
          (r : Result ScheduleError Marks)
          → Post stack later deps r
          → Post stack finished (d ∷ deps) r
      Post-weaken (ok m) (last, inv', kept', seen') = (
        last,
        inv',
        (λ x h. kept' x (kept x h)),
        λ x h.
            unfold count in
            ground (arith, seen' x, kept' x, seen x, count-cons_self d [], text_eq_iff d x),
      )
      Post-weaken (err e) p = p
  Post-cons search stack finished d deps (err e) p rest = p

  visit_all_lem :
      (search : Text → Marks → Result ScheduleError Marks) (stack : List Text)
      → ((a : Text) (finished : List Text) (marks : Marks)
          → Inv stack finished marks
          → 0 < count a (keys entries)
          → IsStack entries (a ∷ stack)
          → Post stack finished (a ∷ []) (search a marks))
      → (deps finished : List Text) (marks : Marks) → Inv stack finished marks
      → ((d : Text) → 0 < count d deps → (0 < count d (keys entries)) × IsStack entries (d ∷ stack))
      → Post stack finished deps (visit_all search deps marks)
  unfolding visit_all
  visit_all_lem search stack step [] finished marks inv ready =
      (finished, inv, (λ x h. h), λ x h. absurd (unfold count in omega arith))
  visit_all_lem search stack step (d ∷ deps) finished marks inv ready =
      let (key, link) = ready d (omega (arith, count-cons_self d deps)) in
      Post-cons search stack finished d deps (search d marks) (step d finished marks inv key link)
        λ later marks' inv'.
          visit_all_lem search stack step deps later marks' inv'
            (λ x h. ready x (behind x d deps h))
    where
      behind : (x d : Text) (deps : List Text) → 0 < count x deps → 0 < count x (d ∷ deps)
      behind x d deps h = unfold count in ground arith

  -- The pop behind the loop.
  Post-finish :
      (stack finished : List Text) (a : Text) (r : Result ScheduleError Marks)
      → IsStack entries stack
      → Post (a ∷ stack) finished (deps_of entries a) r
      → Post stack finished (a ∷ []) (r >>= λ m. ok (insert a visited m))
  Post-finish stack finished a (ok marks) below (later, inv, kept, seen) = (
    a ∷ later,
    Inv-pop stack later marks a inv below seen,
    (λ x h. unfold count in ground (arith, kept x)),
    λ x h. unfold count in ground arith,
  )
  Post-finish stack finished a (err e) below p = p

  visit_lem :
      (fuel : ℕ) (stack : List Text) (a : Text) (finished : List Text) (marks : Marks)
      → length entries < fuel + length stack
      → Inv stack finished marks
      → 0 < count a (keys entries)
      → IsStack entries (a ∷ stack)
      → Post stack finished (a ∷ []) (visit fuel entries stack a marks)
  unfolding visit
  visit_lem zero stack a finished marks enough inv key link =
      absurd (omega (arith, stack_length stack finished marks inv))
  visit_lem (suc fuel) stack a finished marks enough inv key link =
      elim (Mark-cases (get unvisited a marks)) [
        | inl new ↦
            rw (new, visit)
              (Post-finish stack finished a
                (visit_all (visit fuel entries (a ∷ stack)) (deps_of entries a)
                  (insert a visiting marks))
                (IsStack-tail a stack link)
                (visit_all_lem (visit fuel entries (a ∷ stack)) (a ∷ stack)
                  (λ b later marks' inv' key' link'.
                    visit_lem fuel (a ∷ stack) b later marks' (omega arith) inv' key' link')
                  (deps_of entries a) finished (insert a visiting marks)
                  (Inv-push stack finished marks inv a key link new)
                  (λ d h. (known a d h, (h, link)))))
        | inr (inl on_stack) ↦
            rw (on_stack, visit)
              (IsCycle-stack_from entries a stack link (inv.open_marks a on_stack))
        | inr (inr done) ↦
            rw (done, visit)
              (
                finished,
                inv,
                (λ x h. h),
                λ x h. unfold count in ground (arith, text_eq_iff a x, inv.done_marks a),
              )
      ]

  Inv-empty : Inv [] [] []
  unfolding count get
  Inv-empty = record {
    linked = tt;
    keyed = λ x h. absurd (omega arith);
    once = λ x. omega arith;
    open_marks = λ x h. cc;
    stack_marks = λ x h. absurd (omega arith);
    done_marks = λ x h. cc;
    finished_marks = λ x h. absurd (omega arith);
    ordered = tt;
  }

  -- The outer loop over the sorted addresses.
  pub search_lem :
      (addresses : List Text)
      → ((a : Text) → 0 < count a addresses → 0 < count a (keys entries))
      → Post [] [] addresses (visit_all (visit (suc (length entries)) entries []) addresses [])
  search_lem addresses within =
      visit_all_lem (visit (suc (length entries)) entries []) []
        (λ a finished marks inv key link.
          visit_lem (suc (length entries)) [] a finished marks (omega arith) inv key tt)
        addresses [] [] Inv-empty (λ d h. (within d h, tt))
