-- ===== src/Db/Query/Pages.antt =====
-- The pages that `find_all` makes of the rows that it reads.
use shaperail.Prelude.{
  ℕ, map_option, and_then, ◌≤◌, ◌<◌, String, List, ◌++◌, Option, none, some, true, false, length,
  take_all, take_some, last, All, Bool-cases, inl, inr, ◌⊎◌, ◌≡◌, refl, subst, arith,
}
use shaperail.Prelude.Int.{pos, leb_ℤ}
use shaperail.Core.Json.{Json, field, as_str}
use shaperail.Core.Error.{ok, >>=-eq-ok}
use shaperail.Core.Resource.{ResourceDefinition}
use shaperail.Db.Filter.{FilterSet}
use shaperail.Db.Search.{SearchParam}
use shaperail.Db.Sort.{SortParam}
use shaperail.Db.Pagination.{cursor_page}
use shaperail.Db.Base64.{base64_encode}
use shaperail.Db.Base64.Laws.{IsByte, IsAscii, base64_encode-IsAscii, base64_decode-base64_encode}
use shaperail.Db.Query.{Libraries, Pool, execute_query}
use shaperail.Db.Query.Cursor.{text_of, decode_cursor, encode_cursor}
use shaperail.Db.Query.Read.{cursor_statement, after_id, cursor_meta, cursor_result, find_all}

ok_injective : {A : Type 0} {x y : A} → ok x ≡ ok y → x ≡ y
ok_injective e = cc

module _ (lib : Libraries) (r : ResourceDefinition) where
  -- What the libraries do with an id: its bytes are read back, it is a UUID in canonical form, and
  -- an ASCII text has its characters as bytes.
  abbrev pub IsReadBack : String → Type 0
  IsReadBack id =
      All IsByte (lib.as_bytes id)
      × (lib.from_utf8 (lib.as_bytes id) ≡ some id)
      × (lib.parse_uuid id ≡ some id)
      × ((bs : List ℕ) → All IsAscii bs → lib.as_bytes (text_of bs) ≡ bs)

  -- The cursor that is made of an id is read as that id, where the libraries read the id back.
  pub after_id-encode_cursor :
      (id : String) → IsReadBack id → after_id lib r (some (encode_cursor lib id)) ≡ ok (some id)
  unfolding after_id decode_cursor encode_cursor
  after_id-encode_cursor id (bytes, utf8, parsed, ascii) =
      rw
        (
          ascii (base64_encode (lib.as_bytes id)) (base64_encode-IsAscii (lib.as_bytes id)),
          base64_decode-base64_encode (lib.as_bytes id) bytes,
          utf8,
          parsed,
        )
        refl

  -- A page of a limit cut from the rows that were read: the rows as they are where they are no more than the
  -- limit, and then no cursor; else as many of the first ones as the limit says, and a cursor to the last of
  -- them.
  abbrev pub IsPageOf : List Json → ℕ → List Json → Json → Type 0
  IsPageOf read n rows meta =
      ((length read ≤ n) × (rows ≡ read) × (meta ≡ cursor_meta none false))
      ⊎ ((n < length read)
          × (length rows ≡ n)
          × ((rest : List Json) × (read ≡ rows ++ rest))
          × (meta
              ≡ cursor_meta
                  (map_option (encode_cursor lib)
                    (and_then (and_then (last rows) (λ v. field v "id")) as_str))
                  true))

  cursor_result-IsPageOf :
      (read : List Json) (n : ℕ)
      → IsPageOf read n (cursor_result lib r (pos n) read).0 (cursor_result lib r (pos n) read).1
  unfolding cursor_result
  cursor_result-IsPageOf read n = elim (Bool-cases (leb_ℤ (pos (length read)) (pos n))) [
    | inl e ↦
        let all = take_all n read (ground arith) in rw (e, all) (inl (ground arith, refl, refl))
    | inr e ↦
        let (len, more) = take_some n read (ground arith) in
        rw e (inr (ground arith, len, more, refl))
  ]

  module _ {Db : Type 0} (pool : Pool Db) where
    -- A list request with a cursor page that succeeds has read its cursor, has run the statement of that
    -- page, and answers with the page cut from the rows of that statement.
    pub find_all-IsPageOf :
        (filters : FilterSet) (search : Option SearchParam) (sort : SortParam)
        (after : Option String) (n : ℕ) (db : Db) (rows : List Json) (meta : Json)
        → find_all lib r pool filters search sort (cursor_page after (pos n)) db ≡ ok (rows, meta)
        → (id : Option String) × (after_id lib r after ≡ ok id)
          × ((read : List Json) × ((execute_query lib pool r
                  (cursor_statement lib r filters search sort id (pos n))
                  db).0
                ≡ ok read)
              × IsPageOf read n rows meta)
    unfolding find_all
    find_all-IsPageOf filters search sort after n db rows meta h =
        let (id, at, later) = >>=-eq-ok (after_id lib r after) _ h in
        let (read, ran, page) =
          >>=-eq-ok
            (execute_query lib pool r (cursor_statement lib r filters search sort id (pos n)) db).0
            _ later in
        (id, at, (read, ran, page_of read page))
      where
        page_of :
            (read : List Json)
            → ok (cursor_result lib r (pos n) read) ≡ ok (rows, meta)
            → IsPageOf read n rows meta
        page_of read e =
            subst (λ p. IsPageOf read n p.0 p.1) (ok_injective e) (cursor_result-IsPageOf read n)
