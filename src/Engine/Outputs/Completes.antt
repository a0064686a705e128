-- ===== src/Engine/Outputs/Completes.antt =====
-- A completed change action of internal/core/engine/engine.go is not run again by the next plan.
use debianform.Base.{
  Text, text, Option, none, some, true, false, if◌then◌else◌, ◌≡◌, ◌≢◌, refl, text_eq, text_eq_iff,
  text_eq_refl, is_empty, ok, arith, Bool-cases, inl, inr,
}
use debianform.Base.Dict.{Dict, insert, lookup, lookup-insert}
use debianform.Value.{str, as_string}
use debianform.Graph.{Node, OperationCompletion}
use debianform.State.{Resource, Hashing, sanitize_desired, desired_digest}
use debianform.State.Redaction.{sanitize_desired_other}
use debianform.Engine.{Observed, no_op}
use debianform.Engine.Values.{string_value, desired_ensure_absent}
use debianform.Engine.Compare.{change_action_completion_pending, compare_node}
use debianform.Engine.Compare.Justified.{compare_node_no_op}
use debianform.Engine.Outputs.{complete, completed}

module _ (hashing : Hashing) where
  complete_cases :
      (address now : Text) (completion : OperationCompletion) (resources resources' : Dict Resource)
      → complete hashing address now (some completion) resources ≡ ok resources'
      → (found : Resource) × (lookup completion.resource_address resources ≡ some found)
        × (resources'
            ≡ insert completion.resource_address
                (completed hashing completion.observed_field now found)
                resources)
  unfolding complete
  complete_cases address now completion resources resources' h =
      go (lookup completion.resource_address resources) refl
    where
      go :
          (o : Option Resource)
          → lookup completion.resource_address resources ≡ o
          → (found : Resource) × (lookup completion.resource_address resources ≡ some found)
            × (resources'
                ≡ insert completion.resource_address
                    (completed hashing completion.observed_field now found)
                    resources)
      go none e = absurd (ground (arith, h, e))
      go (some found) e = elim (Bool-cases (is_empty completion.observed_field)) [
        | inl blank ↦ absurd (ground (arith, h, e, blank))
        | inr named ↦ (found, e, ground (arith, h, e, named))
      ]

  abbrev digest_key : Text
  digest_key = text "change_action_digest"

  apart_of_text_eq : (a b : Text) → text_eq a b ≡ false → a ≢ b
  apart_of_text_eq a b h e = absurd (ground (arith, h, (text_eq_iff a b).1 e))

  digest_kept :
      (found : Resource) (now : Text)
      → lookup digest_key (completed hashing digest_key now found).observed
        ≡ some (str found.desired_digest)
  unfolding completed text text_eq
  digest_kept found now =
      let values = insert digest_key (str found.desired_digest) found.observed in
      let kept : lookup digest_key (sanitize_desired hashing values) ≡ lookup digest_key values =
        sanitize_desired_other hashing digest_key values
          (apart_of_text_eq digest_key (text "content") refl)
          (apart_of_text_eq digest_key (text "content_sha256") refl)
          (apart_of_text_eq digest_key (text "content_bytes") refl)
          (apart_of_text_eq digest_key (text "source_path") refl)
          (apart_of_text_eq digest_key (text "summary") refl) in
      rw kept
        (rw (lookup-insert digest_key digest_key (str found.desired_digest) found.observed) refl)

  not_pending :
      (node : Node) (found : Resource) (now : Text)
      → found.desired_digest ≡ desired_digest hashing node.desired
      → change_action_completion_pending hashing node
          (some (completed hashing digest_key now found))
        ≡ false
  unfolding change_action_completion_pending string_value as_string
  not_pending node found now same =
      let read : string_value (completed hashing digest_key now found).observed digest_key
          ≡ found.desired_digest =
        ground (arith, digest_kept found now) in
      ground (
        arith,
        read,
        same,
        text_eq_iff (string_value (completed hashing digest_key now found).observed digest_key)
            (desired_digest hashing node.desired),
      )

  -- Recording the completion of a change action, in the field that Compare reads: where the digest
  -- of the node is the recorded one, and the resource is observed to exist with that digest and
  -- wanted to, the next Compare changes nothing; every other address holds what it held.
  pub complete-compare_node :
      (address now : Text) (completion : OperationCompletion) (resources resources' : Dict Resource)
      (found : Resource) (node : Node) (observed : Observed)
      → complete hashing address now (some completion) resources ≡ ok resources'
      → completion.observed_field ≡ text "change_action_digest"
      → lookup completion.resource_address resources ≡ some found
      → found.desired_digest ≡ desired_digest hashing node.desired
      → desired_ensure_absent node ≡ false
      → observed.exists ≡ true
      → observed.desired_digest ≡ desired_digest hashing node.desired
      → ((compare_node hashing node (lookup completion.resource_address resources') observed).action
          ≡ no_op)
        × ((a : Text)
            → lookup a resources' ≡ (
                if text_eq completion.resource_address a
                then some (completed hashing (text "change_action_digest") now found)
                else lookup a resources))
  complete-compare_node address now completion resources resources' found node observed h field e
        same wanted exists in_sync =
      let (found', e', made) = complete_cases address now completion resources resources' h in
      let one : found' ≡ found = ground (arith, e, e') in
      let next = completed hashing digest_key now found in
      let made' : resources' ≡ insert completion.resource_address next resources =
        rw (field, one) at made in
      let holds : (a : Text)
          → lookup a resources'
            ≡ (if text_eq completion.resource_address a then some next else lookup a resources) =
        λ a. rw made' (lookup-insert completion.resource_address a next resources) in
      let there : lookup completion.resource_address resources' ≡ some next =
        ground
          (arith, holds completion.resource_address, text_eq_refl completion.resource_address) in
      (
        rw there (
            compare_node_no_op hashing node next observed wanted exists in_sync
              (not_pending node found now same)),
        holds,
      )
