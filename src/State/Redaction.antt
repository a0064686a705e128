-- ===== src/State/Redaction.antt =====
-- What the state keeps of a resource's attributes.
use debianform.Base.{
  Text, text, ◌≡◌, ◌≢◌, refl, arith, true, false, none, some, if◌then◌else◌, text_eq, text_eq_iff,
  text_eq_refl, inl, inr, Option-cases, length, pos, Option,
}
use debianform.Base.Dict.{lookup, lookup-insert, lookup-delete, insert, delete}
use debianform.Value.{Attributes, as_string, as_bool, str, num}
use debianform.State.{Hashing, hash_content, sanitize_desired}

module _ (hashing : Hashing) where
  lookup-hash_content :
      (k : Text) (d : Attributes)
      → lookup k (hash_content hashing d) ≡ elim (as_string (lookup (text "content") d)) [
        | none ↦ lookup k d
        | some content ↦
            if text_eq (text "content_bytes") k
            then some (num (pos (length content)))
            else if text_eq (text "content_sha256") k
            then some (str (hashing.sha256_hex content))
            else if text_eq (text "content") k
            then none
            else lookup k d
      ]
  unfolding hash_content
  lookup-hash_content k d = elim (Option-cases (as_string (lookup (text "content") d))) [
    | inl absent ↦ rw (absent, hash_content)
    | inr (content, found) ↦
        let hashed = delete (text "content") d in
        let summed = insert (text "content_sha256") (str (hashing.sha256_hex content)) hashed in
        rw (found, hash_content)
          (ground (
            arith,
            lookup-insert (text "content_bytes") k (num (pos (length content))) summed,
            lookup-insert (text "content_sha256") k (str (hashing.sha256_hex content)) hashed,
            lookup-delete (text "content") k d,
          ))
  ]

  -- The attributes that are not about a file's content stay as they are.
  pub sanitize_desired_other :
      (k : Text) (d : Attributes)
      → k ≢ text "content"
      → k ≢ text "content_sha256"
      → k ≢ text "content_bytes"
      → k ≢ text "source_path"
      → k ≢ text "summary"
      → lookup k (sanitize_desired hashing d) ≡ lookup k d
  unfolding sanitize_desired
  sanitize_desired_other k d h1 h2 h3 h4 h5 =
      let out = hash_content hashing d in
      ground (
        arith,
        lookup-hash_content k d,
        text_eq_iff (text "content") k,
        text_eq_iff (text "content_sha256") k,
        text_eq_iff (text "content_bytes") k,
        text_eq_iff (text "source_path") k,
        text_eq_iff (text "summary") k,
        lookup-delete (text "source_path") k out,
        lookup-delete (text "summary") k (delete (text "source_path") out),
      )

  names_apart :
      (text_eq (text "content_bytes") (text "content") ≡ false)
      × (text_eq (text "content_sha256") (text "content") ≡ false)
      × (text_eq (text "content_bytes") (text "content_sha256") ≡ false)
      × (text_eq (text "summary") (text "content") ≡ false)
      × (text_eq (text "source_path") (text "content") ≡ false)
      × (text_eq (text "summary") (text "content_sha256") ≡ false)
      × (text_eq (text "source_path") (text "content_sha256") ≡ false)
      × (text_eq (text "summary") (text "content_bytes") ≡ false)
      × (text_eq (text "source_path") (text "content_bytes") ≡ false)
      × (text_eq (text "summary") (text "source_path") ≡ false)
  unfolding text text_eq
  names_apart = (refl, refl, refl, refl, refl, refl, refl, refl, refl, refl)

  -- The lookups of a sensitive resource, at a key that is not deleted.
  lookup-sensitive :
      (k : Text) (d : Attributes)
      → text_eq (text "summary") k ≡ false
      → text_eq (text "source_path") k ≡ false
      → lookup k (sanitize_desired hashing d) ≡ lookup k (hash_content hashing d)
  unfolding sanitize_desired
  lookup-sensitive k d h1 h2 =
      let out = hash_content hashing d in
      ground (
        arith,
        h1,
        h2,
        lookup-delete (text "source_path") k out,
        lookup-delete (text "summary") k (delete (text "source_path") out),
      )

  -- What stands for the content: the hash and the length of a string, without the string itself. A
  -- content that is not a string is left as it is.
  abbrev pub IsHashed : Option Text → Attributes → Attributes → Type 0
  IsHashed none d out =
      (lookup (text "content") out ≡ lookup (text "content") d)
      × (lookup (text "content_sha256") out ≡ lookup (text "content_sha256") d)
      × (lookup (text "content_bytes") out ≡ lookup (text "content_bytes") d)
  IsHashed (some content) d out =
      (lookup (text "content") out ≡ none)
      × (lookup (text "content_sha256") out ≡ some (str (hashing.sha256_hex content)))
      × (lookup (text "content_bytes") out ≡ some (num (pos (length content))))

  sanitize_desired-IsHashed :
      (d : Attributes)
      → IsHashed (as_string (lookup (text "content") d)) d (sanitize_desired hashing d)
  sanitize_desired-IsHashed d = go (as_string (lookup (text "content") d)) refl
    where
      go :
          (o : Option Text)
          → as_string (lookup (text "content") d) ≡ o
          → IsHashed o d (sanitize_desired hashing d)
      go none e = (
        ground (
          arith,
          e,
          names_apart,
          lookup-sensitive (text "content") d,
          lookup-hash_content (text "content") d,
        ),
        ground (
          arith,
          e,
          names_apart,
          lookup-sensitive (text "content_sha256") d,
          lookup-hash_content (text "content_sha256") d,
        ),
        ground (
          arith,
          e,
          names_apart,
          lookup-sensitive (text "content_bytes") d,
          lookup-hash_content (text "content_bytes") d,
        ),
      )
      go (some content) e = (
        ground (
          arith,
          e,
          names_apart,
          lookup-sensitive (text "content") d,
          text_eq_refl (text "content"),
          lookup-hash_content (text "content") d,
        ),
        ground (
          arith,
          e,
          names_apart,
          lookup-sensitive (text "content_sha256") d,
          text_eq_refl (text "content_sha256"),
          lookup-hash_content (text "content_sha256") d,
        ),
        ground (
          arith,
          e,
          names_apart,
          lookup-sensitive (text "content_bytes") d,
          text_eq_refl (text "content_bytes"),
          lookup-hash_content (text "content_bytes") d,
        ),
      )

  -- Of a sensitive resource, the path of the source and the summary are dropped, and a string under
  -- `content` is dropped with its hash and its length put in its place. A content that is not a
  -- string stays, and then the hash and the length are as they were.
  pub sanitize_desired-sensitive :
      (d : Attributes)
      → as_bool (lookup (text "sensitive") d) ≡ true
      → (lookup (text "source_path") (sanitize_desired hashing d) ≡ none)
        × (lookup (text "summary") (sanitize_desired hashing d) ≡ none)
        × IsHashed (as_string (lookup (text "content") d)) d (sanitize_desired hashing d)
  unfolding sanitize_desired
  sanitize_desired-sensitive d sensitive =
      let rest = delete (text "source_path") (hash_content hashing d) in
      (
        ground (
          arith,
          names_apart,
          sensitive,
          text_eq_refl (text "source_path"),
          lookup-delete (text "source_path") (text "source_path") (hash_content hashing d),
          lookup-delete (text "summary") (text "source_path") rest,
        ),
        ground (
          arith,
          sensitive,
          text_eq_refl (text "summary"),
          lookup-delete (text "summary") (text "summary") rest,
        ),
        sanitize_desired-IsHashed d,
      )
