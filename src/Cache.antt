-- ===== src/Cache.antt =====
-- shaperail-runtime/src/cache/store.rs: the keys of cached responses, and invalidation by resource.
pub mod Entries
mod Examples
use Prim.Native.String.{compare}
use Prim.Native.Nat.{Ordering}
use shaperail.Prelude.{
  ℕ, String, List, [], ◌∷◌, Option, none, some, Bool, true, false, not, contains, keep, format, map,
  starts_with, if◌then◌else◌,
}

-- The stored bodies by key.
abbrev pub Cache : Type 0
Cache = List (String × String)

abbrev sort_after : Ordering → Bool
sort_after Ordering.gt = true
sort_after _ = false

-- `sort_by_key` on the keys, which are distinct.
insert_sorted : String × String → List (String × String) → List (String × String)
insert_sorted e [] = e ∷ []
insert_sorted e (x ∷ xs) =
    if sort_after (compare e.0 x.0) then x ∷ insert_sorted e xs else e ∷ x ∷ xs

sort_pairs : List (String × String) → List (String × String)
unfolding insert_sorted
sort_pairs [] = []
sort_pairs (e ∷ es) = insert_sorted e (sort_pairs es)

abbrev hashed_pair : String × String → String
hashed_pair e = format (e.0 ∷ "=" ∷ e.1 ∷ "&" ∷ [])

-- What is hashed; `sha256_16` is the first 16 hex digits of SHA-256.
hash_input : List (String × String) → String
unfolding sort_pairs
hash_input params = format (map hashed_pair (sort_pairs params))

module _ (sha256_16 : String → String) where
  unfoldable pub build_key_with_tenant :
      (resource endpoint : String)
      → List (String × String)
      → (user_role tenant_id : String) → String
  unfolding hash_input
  build_key_with_tenant resource endpoint params user_role tenant_id = format (
      "shaperail:"
      ∷ resource
      ∷ ":"
      ∷ endpoint
      ∷ ":"
      ∷ sha256_16 (hash_input params)
      ∷ ":"
      ∷ tenant_id
      ∷ ":"
      ∷ user_role
      ∷ [])

-- Redis behind its pool: GET, SETEX, KEYS and DEL on the entries. A failure of the pool or of Redis is no
-- entry for a GET, no reply for a KEYS, and no change for the others.
pub record Redis : Type 0 where
  pub get : String → Cache → Option String
  pub set_ex : (key body : String) (ttl : ℕ) → Cache → Cache
  pub keys_of : (pattern : String) → Cache → Option (List String)
  pub del : List String → Cache → Cache

abbrev pub del_found : Redis → Option (List String) → Cache → Cache
del_found redis none cache = cache
del_found redis (some []) cache = cache
del_found redis (some (k ∷ ks)) cache = redis.del (k ∷ ks) cache

unfoldable pub invalidate_resource : Redis → String → Cache → Cache
invalidate_resource redis resource cache =
    del_found redis (redis.keys_of (format ("shaperail:" ∷ resource ∷ ":*" ∷ [])) cache) cache

abbrev pub should_invalidate : String → Option (List String) → Bool
should_invalidate action none = true
should_invalidate action (some actions) = contains actions action

unfoldable pub invalidate_if_needed : Redis → String → String → Option (List String) → Cache → Cache
invalidate_if_needed redis resource action invalidate_on cache =
    if should_invalidate action invalidate_on
    then invalidate_resource redis resource cache
    else cache
