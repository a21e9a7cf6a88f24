-- ===== src/Fleet/Store/Memory.antt =====
-- A database that meets `IsMongo`: a list of documents, each with its collection.
use warehouse_fleet_manageme.Common.{
  String, ◌≡◌, ◌≢◌, refl, subst, ap, Bool, true, false, ◌&&◌, ◌==ₛ◌, ==ₛ_iff, Option, none, some,
  List, [], ◌∷◌, ◌++◌, if◌then◌else◌, arith,
}
use warehouse_fleet_manageme.Fleet.Effect.{Result, returned}
use warehouse_fleet_manageme.Fleet.Store.{
  Value, text, int32, int64, double, document, Fields, end, field, Mongo, IsMongo, at, one_field,
  set_over,
}

abbrev pub Documents : Type 0 → Type 0
Documents D = List (String × Fields D)

module _ {D : Type 0} where
  abbrev is_text : String → Option (Value D) → Bool
  is_text x (some (text s)) = s ==ₛ x
  is_text x _ = false

  -- The document has each field of the filter.
  abbrev fits : Fields D → Fields D → Bool
  fits end doc = true
  fits (field k (text x) filter) doc = is_text x (at k doc) && fits filter doc
  fits (field k v filter) doc = false

  abbrev append_fields : Fields D → Fields D → Fields D
  append_fields end doc = doc
  append_fields (field k v set) doc = field k v (append_fields set doc)

  abbrev search_docs : String → Fields D → Documents D → Option (Fields D)
  search_docs c filter [] = none
  search_docs c filter ((c', doc) ∷ docs) =
      if (c' ==ₛ c) && fits filter doc then some doc else search_docs c filter docs

  abbrev update_docs : String → Fields D → Fields D → Bool → Documents D → Documents D
  update_docs c filter set true [] = (c, append_fields set filter) ∷ []
  update_docs c filter set false [] = []
  update_docs c filter set upsert ((c', doc) ∷ docs) =
      if (c' ==ₛ c) && fits filter doc
      then (c', append_fields set doc) ∷ docs
      else (c', doc) ∷ update_docs c filter set upsert docs

  abbrev pub memory : Mongo D (Documents D)
  memory = record {
    insert_one = λ c doc db. (returned tt, db ++ ((c, doc) ∷ []));
    update_one = λ c filter set upsert db. (returned tt, update_docs c filter set upsert db);
    find_one = λ c filter db. (returned (search_docs c filter db), db);
  }

  at-append_fields :
      (j : String) (set doc : Fields D)
      → at j (append_fields set doc) ≡ set_over (at j set) (at j doc)
  unfolding at
  at-append_fields j end doc = refl
  at-append_fields j (field k v set) doc = ground (arith, at-append_fields j set doc)

  search-insert :
      (c k x : String) (doc : Fields D) (db : Documents D)
      → search_docs c (one_field k x) db ≡ none
      → at k doc ≡ some (text x)
      → search_docs c (one_field k x) (db ++ ((c, doc) ∷ [])) ≡ some doc
  search-insert c k x doc [] h e = ground (arith, ==ₛ_iff c c, ==ₛ_iff x x)
  search-insert c k x doc ((c', other) ∷ db) h e = ground (arith, search-insert c k x doc db)

  search-update :
      (c k x : String) (set doc : Fields D) (upsert : Bool) (db : Documents D)
      → search_docs c (one_field k x) db ≡ some doc
      → at k set ≡ none
      → search_docs c (one_field k x) (update_docs c (one_field k x) set upsert db)
        ≡ some (append_fields set doc)
  search-update c k x set doc upsert [] h e = cc
  search-update c k x set doc true ((c', other) ∷ db) h e =
      ground (arith, at-append_fields k set other, search-update c k x set doc true db)
  search-update c k x set doc false ((c', other) ∷ db) h e =
      ground (arith, at-append_fields k set other, search-update c k x set doc false db)

  abbrev HasSet : String → String → String → Fields D → Documents D → Type 0
  HasSet c k x set docs =
      (doc : Fields D) × (search_docs c (one_field k x) docs ≡ some doc)
      × ((j : String) (v : Value D) → at j set ≡ some v → at j doc ≡ some v)

  set_found :
      (j : String) (v : Value D) (set doc : Fields D)
      → at j set ≡ some v
      → at j (append_fields set doc) ≡ some v
  set_found j v set doc e = rw (at-append_fields j set doc, e)

  upsert_cons :
      (here : Bool) (c k x : String) (set : Fields D) (entry : String × Fields D)
      (old rest : Documents D)
      → at k set ≡ some (text x)
      → here ≡ ((entry.0 ==ₛ c) && fits (one_field k x) entry.1)
      → HasSet c k x set rest
      → HasSet c k x set (if here then (entry.0, append_fields set entry.1) ∷ old else entry ∷ rest)
  upsert_cons true c k x set (c', other) old rest e h was = (
    append_fields set other,
    ground (arith, ==ₛ_iff x x, set_found k (text x) set other e),
    λ j v h. set_found j v set other h,
  )
  upsert_cons false c k x set (c', other) old rest e h (doc, found, fields) =
      (doc, ground arith, fields)

  search-upsert :
      (c k x : String) (set : Fields D) (db : Documents D)
      → at k set ≡ some (text x)
      → HasSet c k x set (update_docs c (one_field k x) set true db)
  search-upsert c k x set [] e = (
    append_fields set (one_field k x),
    ground (arith, ==ₛ_iff c c, ==ₛ_iff x x, set_found k (text x) set (one_field k x) e),
    λ j v h. set_found j v set (one_field k x) h,
  )
  search-upsert c k x set ((c', other) ∷ db) e =
      upsert_cons ((c' ==ₛ c) && fits (one_field k x) other) c k x set (c', other) db _ e refl
        (search-upsert c k x set db e)

  search-insert_elsewhere :
      (c c' : String) (filter doc : Fields D) (db : Documents D)
      → c ≢ c'
      → search_docs c filter (db ++ ((c', doc) ∷ [])) ≡ search_docs c filter db
  search-insert_elsewhere c c' filter doc [] n = ground (arith, ==ₛ_iff c' c)
  search-insert_elsewhere c c' filter doc ((c'', other) ∷ db) n =
      ground (arith, search-insert_elsewhere c c' filter doc db n)

  search-update_elsewhere :
      (c c' : String) (filter filter' set : Fields D) (upsert : Bool) (db : Documents D)
      → c ≢ c'
      → search_docs c filter (update_docs c' filter' set upsert db) ≡ search_docs c filter db
  search-update_elsewhere c c' filter filter' set true [] n = ground (arith, ==ₛ_iff c' c)
  search-update_elsewhere c c' filter filter' set false [] n = refl
  search-update_elsewhere c c' filter filter' set true ((c'', other) ∷ db) n = ground (
    arith,
    ==ₛ_iff c'' c,
    ==ₛ_iff c'' c',
    search-update_elsewhere c c' filter filter' set true db n,
  )
  search-update_elsewhere c c' filter filter' set false ((c'', other) ∷ db) n = ground (
    arith,
    ==ₛ_iff c'' c,
    ==ₛ_iff c'' c',
    search-update_elsewhere c c' filter filter' set false db n,
  )

  -- A field is one text at most.
  is_text_unique :
      (x y : String) (v : Option (Value D)) → is_text x v ≡ true → is_text y v ≡ true → x ≡ y
  is_text_unique x y (some (text s)) e f = ground (arith, ==ₛ_iff s x, ==ₛ_iff s y)
  is_text_unique x y none e f = cc
  is_text_unique x y (some (int32 n)) e f = cc
  is_text_unique x y (some (int64 n)) e f = cc
  is_text_unique x y (some (double z)) e f = cc
  is_text_unique x y (some (document z)) e f = cc

  search-update_other :
      (c k x y : String) (set : Fields D) (upsert : Bool) (db : Documents D)
      → x ≢ y
      → at k set ≡ some (text y)
      → search_docs c (one_field k x) (update_docs c (one_field k y) set upsert db)
        ≡ search_docs c (one_field k x) db
  search-update_other c k x y set true [] n e =
      ground (arith, ==ₛ_iff y x, set_found k (text y) set (one_field k y) e)
  search-update_other c k x y set false [] n e = refl
  search-update_other c k x y set true ((c'', other) ∷ db) n e = ground (
    arith,
    ==ₛ_iff y x,
    is_text_unique x y (at k other),
    set_found k (text y) set other e,
    search-update_other c k x y set true db n e,
  )
  search-update_other c k x y set false ((c'', other) ∷ db) n e = ground (
    arith,
    ==ₛ_iff y x,
    is_text_unique x y (at k other),
    set_found k (text y) set other e,
    search-update_other c k x y set false db n e,
  )

  elsewhere :
      (filter : Fields D) (c : String) (r : Option (Fields D)) (db db' next : Documents D)
      → search_docs c filter next ≡ search_docs c filter db
      → memory.find_one c filter db ≡ (returned r, db)
      → ◌≡◌ {A = Result (Unit {0}) × Documents D} (returned tt, next) (returned tt, db')
      → memory.find_one c filter db' ≡ (returned r, db')
  elsewhere filter c r db db' next e h u =
      let found : search_docs c filter db' ≡ r =
        subst (λ z. search_docs c filter z ≡ r) (ap (λ z. z.1) u) (rw e (cc h)) in
      cc found

  pub memory-IsMongo : IsMongo memory
  memory-IsMongo = record {
    find_inserted = λ c k x doc db db' h e i.
        let found : search_docs c (one_field k x) db' ≡ some doc =
          subst (λ u. search_docs c (one_field k x) u ≡ some doc) (ap (λ r. r.1) i)
            (search-insert c k x doc db (cc h) e) in
        (doc, cc found, λ j n. refl);
    find_updated = λ c k x set view upsert db db' h e u.
        let found : search_docs c (one_field k x) db' ≡ some (append_fields set view) =
          subst (λ u. search_docs c (one_field k x) u ≡ some (append_fields set view))
            (ap (λ r. r.1) u) (search-update c k x set view upsert db (cc h) e) in
        (append_fields set view, cc found, λ j. at-append_fields j set view);
    find_upserted = λ c k x set db db' e u.
        let (doc, found, fields) =
          subst (HasSet c k x set) (ap (λ r. r.1) u) (search-upsert c k x set db e) in
        (doc, cc found, fields);
    find_inserted_elsewhere = λ c c' k x doc r db db' n h i.
        elsewhere (one_field k x) c r db db' _
          (search-insert_elsewhere c c' (one_field k x) doc db n) h i;
    find_updated_elsewhere = λ c c' k x k' x' set upsert r db db' n h u.
        elsewhere (one_field k x) c r db db' _
          (search-update_elsewhere c c' (one_field k x) (one_field k' x') set upsert db n) h u;
    find_other = λ c k x y set upsert r db db' n e h u.
        elsewhere (one_field k x) c r db db' _ (search-update_other c k x y set upsert db n e) h u;
  }
