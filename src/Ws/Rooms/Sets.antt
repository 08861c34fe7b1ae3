-- ===== src/Ws/Rooms/Sets.antt =====
-- The sets of the two indexes: what each change leaves under each key.
use shaperail.Prelude.{
  String, List, [], ◌∷◌, Option, none, some, Bool, true, false, ◌&&◌, ◌==◌, eq_iff, eq_refl,
  contains, contains_key, lookup, insert, remove, lookup-insert, lookup-remove, unwrap_or, is_empty,
  is_some, if◌then◌else◌, Bool-cases, inl, inr, ◌≡◌, refl, sym, ap, ◌∙◌, arith,
}
use shaperail.Ws.Rooms.{
  SetMap, add_to, without, alter, put_or_remove, drop_from, drop_member, drop_members,
}

-- The set under a key, empty if there is none, has the element.
abbrev pub has : SetMap → String → String → Bool
has m k x = contains (unwrap_or (lookup k m) []) x

pub contains-without :
    (s : String) (xs : List String) (x : String)
    → contains (without s xs) x ≡ (if s == x then false else contains xs x)
unfolding without
contains-without s [] x = ground arith
contains-without s (y ∷ ys) x =
    ground (arith, eq_iff y s, eq_iff s x, eq_iff y x, contains-without s ys x)

pub contains-add_to :
    (s : String) (xs : List String) (x : String)
    → contains (add_to s xs) x ≡ (if s == x then true else contains xs x)
unfolding add_to
contains-add_to s xs x = elim (Bool-cases (s == x)) [
  | inl e ↦ rw ((eq_iff s x).0 e) (ground (arith, eq_refl x))
  | inr e ↦ ground arith
]

pub has-insert :
    (k : String) (xs : List String) (m : SetMap) (j x : String)
    → has (insert k xs m) j x ≡ (if k == j then contains xs x else has m j x)
has-insert k xs m j x =
    rw (lookup-insert k j xs m)
      (elim (Bool-cases (k == j)) [ inl e ↦ rw e refl | inr e ↦ rw e refl ])

pub has-remove :
    (k : String) (m : SetMap) (j x : String)
    → has (remove k m) j x ≡ (if k == j then false else has m j x)
has-remove k m j x =
    rw (lookup-remove k j m) (elim (Bool-cases (k == j)) [ inl e ↦ rw e refl | inr e ↦ rw e refl ])

empty_has : (xs : List String) (x : String) → is_empty xs ≡ true → contains xs x ≡ false
empty_has [] x e = refl
empty_has (y ∷ ys) x e = cc

pub has-put_or_remove :
    (k : String) (xs : List String) (m : SetMap) (j x : String)
    → has (put_or_remove k xs m) j x ≡ (if k == j then contains xs x else has m j x)
has-put_or_remove k xs m j x = elim (Bool-cases (is_empty xs)) [
  | inl e ↦ rw (e, has-remove k m j x, empty_has xs x e) refl
  | inr e ↦ rw (e, has-insert k xs m j x) refl
]

pub has_found :
    (k : String) (m : SetMap) (j x : String) {o : Option (List String)}
    → lookup k m ≡ o
    → (k == j) ≡ true
    → has m j x ≡ contains (unwrap_or o []) x
has_found k m j x e q =
    ap (λ i. has m i x) (sym ((eq_iff k j).0 q)) ∙ ap (λ o. contains (unwrap_or o []) x) e

pub has-drop_member :
    (s room : String) (m : SetMap) (j x : String)
    → has (drop_member s room m) j x ≡ (if (room == j) && (s == x) then false else has m j x)
unfolding drop_member
has-drop_member s room m j x = at (lookup room m) refl
  where
    at :
        (o : Option (List String))
        → lookup room m ≡ o
        → has (drop_from s room o m) j x ≡ (if (room == j) && (s == x) then false else has m j x)
    at none e = elim (Bool-cases (room == j)) [
      | inl q ↦ let absent = has_found room m j x e q in ground arith
      | inr q ↦ ground arith
    ]
    at (some xs) e =
        rw (has-put_or_remove room (without s xs) m j x, contains-without s xs x)
          (elim (Bool-cases (room == j)) [
            | inl q ↦ let there = has_found room m j x e q in ground arith
            | inr q ↦ ground arith
          ])

pub has-drop_members :
    (s : String) (rs : List String) (m : SetMap) (j x : String)
    → has (drop_members s rs m) j x ≡ (if contains rs j && (s == x) then false else has m j x)
unfolding drop_members
has-drop_members s [] m j x = ground arith
has-drop_members s (r ∷ rs) m j x =
    rw (has-drop_members s rs (drop_member s r m) j x, has-drop_member s r m j x) (ground arith)

pub key_insert :
    {V : Type 0} (k : String) (v : V) (m : List (String × V)) (j : String)
    → contains_key j (insert k v m) ≡ (if k == j then true else contains_key j m)
key_insert k v m j =
    rw (lookup-insert k j v m)
      (elim (Bool-cases (k == j)) [ inl e ↦ rw e refl | inr e ↦ rw e refl ])

pub key_remove :
    {V : Type 0} (k : String) (m : List (String × V)) (j : String)
    → contains_key j (remove k m) ≡ (if k == j then false else contains_key j m)
key_remove k m j =
    rw (lookup-remove k j m) (elim (Bool-cases (k == j)) [ inl e ↦ rw e refl | inr e ↦ rw e refl ])

pub alter-has :
    (f : List String → List String) (k : String) (m : SetMap) (j x : String)
    → has (alter f k (lookup k m) m) j x ≡ (
        if (k == j) && contains_key k m
        then contains (f (unwrap_or (lookup k m) [])) x
        else has m j x)
alter-has f k m j x = at (lookup k m) refl
  where
    at :
        (o : Option (List String))
        → lookup k m ≡ o
        → has (alter f k o m) j x
          ≡ (if (k == j) && is_some o then contains (f (unwrap_or o [])) x else has m j x)
    at none e = ground arith
    at (some xs) e = rw (has-insert k (f xs) m j x) (ground arith)

pub alter-key :
    (f : List String → List String) (k : String) (m : SetMap) (j : String)
    → contains_key j (alter f k (lookup k m) m) ≡ contains_key j m
alter-key f k m j = at (lookup k m) refl
  where
    at :
        (o : Option (List String))
        → lookup k m ≡ o
        → contains_key j (alter f k o m) ≡ contains_key j m
    at none e = refl
    at (some xs) e = rw (key_insert k (f xs) m j) (elim (Bool-cases (k == j)) [
      | inl q ↦ rw (q, sym ((eq_iff k j).0 q), e) refl
      | inr q ↦ rw q refl
    ])
