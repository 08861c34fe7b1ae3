-- ===== src/Cache/Examples.antt =====
-- The cache at concrete entries.
use shaperail.Prelude.{
  String, [], ◌∷◌, none, some, keys, lookup, keep, contains, not, In, starts_with, eq_iff, subst,
  sym, ◌≡◌, refl, inl, inr, true, arith,
}
use shaperail.Cache.{Cache, Redis}
use shaperail.Cache.Entries.{prefix_of, FindsEntries, Deletes, After, lookup-invalidate_if_needed}

abbrev response_key : String
response_key = "shaperail:posts:get"

abbrev one_entry : Cache
one_entry = (response_key, "a") ∷ []

abbrev redis : Redis
redis = record {
  get = lookup;
  set_ex = λ key body ttl c. (key, body) ∷ c;
  keys_of = λ pattern c. some (keys c);
  del = λ ks c. keep (λ e. not (contains ks e.0)) c;
}

one_entry-FindsEntries : FindsEntries redis one_entry "posts" (response_key ∷ [])
one_entry-FindsEntries k = (found, held)
  where
    found :
        In k (response_key ∷ [])
        → (starts_with k (prefix_of "posts") ≡ true)
          × ((body : String) × (lookup k one_entry ≡ some body))
    found (inl e) =
        subst
          (λ s.
            (starts_with s (prefix_of "posts") ≡ true)
            × ((body : String) × (lookup s one_entry ≡ some body)))
          (sym e) (refl, ("a", refl))
    found (inr i) = absurd i

    held :
        (starts_with k (prefix_of "posts") ≡ true)
          × ((body : String) × (lookup k one_entry ≡ some body))
        → In k (response_key ∷ [])
    held (h, (body, e)) = ground (arith, e, eq_iff response_key k)

one_entry-Deletes : Deletes redis one_entry (response_key ∷ [])
one_entry-Deletes k = (λ i. refl, λ n. ground (arith, n, eq_iff response_key k))

lookup-invalidate_if_needed_example : After redis one_entry "posts" "create" none response_key
lookup-invalidate_if_needed_example =
    lookup-invalidate_if_needed redis one_entry "posts" "create" none response_key
      (response_key ∷ []) refl one_entry-FindsEntries one_entry-Deletes
