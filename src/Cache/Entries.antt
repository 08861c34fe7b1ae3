-- ===== src/Cache/Entries.antt =====
-- Which entries of the cache an invalidation removes.
use shaperail.Prelude.{
  String, List, [], ◌∷◌, Option, none, some, true, false, format, starts_with, In, contains→In,
  In→contains, Bool-cases, inl, inr, ◌⊎◌, ◌≡◌, ◌↔◌, ◌∙◌, refl, arith,
}
use shaperail.Cache.{
  Cache, Redis, del_found, invalidate_resource, should_invalidate, invalidate_if_needed,
}

abbrev pub prefix_of : String → String
prefix_of resource = format ("shaperail:" ∷ resource ∷ ":" ∷ [])

-- A write invalidates where no actions are declared, or where its action is one of them.
abbrev pub Invalidates : String → Option (List String) → Type 0
Invalidates action invalidate_on =
    (invalidate_on ≡ none)
    ⊎ ((actions : List String) × (invalidate_on ≡ some actions) × In action actions)

should_invalidate-Invalidates :
    (action : String) (invalidate_on : Option (List String))
    → (should_invalidate action invalidate_on ≡ true) ↔ Invalidates action invalidate_on
should_invalidate-Invalidates action none = (λ _. inl refl, λ _. refl)
should_invalidate-Invalidates action (some actions) = (
  λ h. inr (actions, refl, contains→In actions action h),
  λ d. elim d [ inl e ↦ cc | inr (listed, e, i) ↦ ground (arith, In→contains listed action i) ],
)

module _ (redis : Redis) (cache : Cache) where
  -- KEYS finds the entries whose keys start with the resource's prefix. (The name has none of the
  -- characters that a glob gives a meaning.)
  abbrev pub FindsEntries : (resource : String) → List String → Type 0
  FindsEntries resource found =
      (k : String)
      → In k found ↔ (
          (starts_with k (prefix_of resource) ≡ true)
          × ((body : String) × (redis.get k cache ≡ some body)))

  -- DEL removes what it is given and nothing else.
  abbrev pub Deletes : List String → Type 0
  Deletes found =
      (k : String)
      → (In k found → redis.get k (redis.del found cache) ≡ none)
        × ((In k found → ⊥) → redis.get k (redis.del found cache) ≡ redis.get k cache)

  abbrev pub After : (resource action : String) → Option (List String) → (key : String) → Type 0
  After resource action invalidate_on key =
      let after = invalidate_if_needed redis resource action invalidate_on cache in
      (Invalidates action invalidate_on
        × (starts_with key (prefix_of resource) ≡ true)
        × (redis.get key after ≡ none))
      ⊎ (((Invalidates action invalidate_on → ⊥) ⊎ (starts_with key (prefix_of resource) ≡ false))
          × (redis.get key after ≡ redis.get key cache))

  -- One key after the DEL, which is not sent for no keys.
  deleted :
      (resource key : String) (found : List String)
      → FindsEntries resource found
      → Deletes found
      → (starts_with key (prefix_of resource) ≡ true
          → redis.get key (del_found redis (some found) cache) ≡ none)
        × (starts_with key (prefix_of resource) ≡ false
            → redis.get key (del_found redis (some found) cache) ≡ redis.get key cache)
  deleted resource key [] finds deletes = (absent (redis.get key cache) refl, λ _. refl)
    where
      absent :
          (o : Option String)
          → redis.get key cache ≡ o
          → starts_with key (prefix_of resource) ≡ true
          → redis.get key cache ≡ none
      absent none e h = e
      absent (some body) e h = absurd ((finds key).1 (h, (body, e)))
  deleted resource key (k ∷ ks) finds deletes = (
    λ h. gone h (redis.get key cache) refl,
    λ h. (deletes key).1 (λ i. outside h ((finds key).0 i).0),
  )
    where
      outside :
          starts_with key (prefix_of resource) ≡ false
          → starts_with key (prefix_of resource) ≡ true
          → ⊥
      outside f t = cc

      gone :
          starts_with key (prefix_of resource) ≡ true
          → (o : Option String) → redis.get key cache ≡ o
          → redis.get key (redis.del (k ∷ ks) cache) ≡ none
      gone h (some body) e = (deletes key).0 ((finds key).1 (h, (body, e)))
      gone h none e = (deletes key).1 (λ i. let (b, held) = ((finds key).0 i).1 in cc) ∙ e

  -- Where KEYS and DEL answer, a write whose action is declared to invalidate, or any write where no
  -- actions are declared, leaves no entry under a key of the resource, and every other entry, and after
  -- any other write every entry, is as it was.
  pub lookup-invalidate_if_needed :
      (resource action : String) (invalidate_on : Option (List String)) (key : String)
      (found : List String)
      → redis.keys_of (format ("shaperail:" ∷ resource ∷ ":*" ∷ [])) cache ≡ some found
      → FindsEntries resource found
      → Deletes found
      → After resource action invalidate_on key
  unfolding invalidate_if_needed invalidate_resource
  lookup-invalidate_if_needed resource action invalidate_on key found answered finds deletes =
      let (to, back) = should_invalidate-Invalidates action invalidate_on in
      let (gone, kept) = deleted resource key found finds deletes in
      elim (Bool-cases (should_invalidate action invalidate_on)) [
        | inr e ↦ inr (inl (λ d. ground (arith, e, back d)), rw e refl)
        | inl e ↦ elim (Bool-cases (starts_with key (prefix_of resource))) [
          | inl h ↦ inl (to e, h, rw (e, answered) (gone h))
          | inr h ↦ inr (inr h, rw (e, answered) (kept h))
        ]
      ]
