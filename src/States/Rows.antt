-- ===== src/States/Rows.antt =====
-- What the database answers: the rows of a table that a query selects, in the order of their ids.
use iracelog_service_manager.Base.{
  ℕ, ◌+◌, ◌<◌, ◌≤◌, Bool, true, false, not, ◌&&◌, Option, none, some, List, [], ◌∷◌, ◌++◌, ◌≡◌,
  refl, sym, ◌∙◌, ap, map, arith, ◌==◌, nat_key, Bool-cases, inl, inr, leb, lt32, All, All-filter,
  filter-All, subst, zero, suc, filter, take, sign_bit, long_sign,
}
use mathlib.Core.List.{append_assoc, append-nil}
use iracelog_service_manager.Base.Results.{Result, done}
use iracelog_service_manager.States.Types.{Table, Query, ProtoInfoData, RangeContainer, Store}
use iracelog_service_manager.States.Repos.{collect, load_rows}

-- A row of a table, joined with its `rs_info`.
pub record Stored (F D P : Type 0) : Type 0 where
  pub info : ProtoInfoData F P
  pub event : ℕ
  pub session : ℕ
  pub session_seconds : D

abbrev pub id_of : {F D P : Type 0} → Stored F D P → ℕ
id_of r = r.info.info_id

-- A condition that is set.
abbrev pub if_set : {A : Type 0} → Option A → (A → Bool) → Bool
if_set none test = true
if_set (some a) test = test a

-- What a query selects; `at_most` orders session times, `a at_most b`.
abbrev pub matches : {F D P : Type 0} → (D → D → Bool) → Query D → Stored F D P → Bool
matches at_most q r =
    r.event == q.of_event
    && (if_set q.in_session (λ n. r.session == n)
        && (if_set q.from_id (λ i. not (lt32 (id_of r) i))
            && (if_set q.from_stamp (λ t. leb t r.info.at_stamp)
                && if_set q.from_session_time (λ t. at_most t r.session_seconds))))

-- The ids of the rows increase.
abbrev pub IsSorted : {F D P : Type 0} → List (Stored F D P) → Type 0
IsSorted [] = Unit
IsSorted (r ∷ rs) = All (λ s. id_of r < id_of s) rs × IsSorted rs

module _ {F D P : Type 0} where
  -- The id of the last row, if there is one.
  abbrev pub last_id : ℕ → List (Stored F D P) → ℕ
  last_id i [] = i
  last_id i (r ∷ rs) = last_id (id_of r) rs

  pub All-take :
      (P' : Stored F D P → Type 0) (n : ℕ) (rs : List (Stored F D P))
      → All P' rs
      → All P' (take n rs)
  All-take P' zero rs h = tt
  All-take P' (suc n) [] h = tt
  All-take P' (suc n) (r ∷ rs) h = (h.0, All-take P' n rs h.1)

  pub IsSorted-filter :
      (p : Stored F D P → Bool) (rs : List (Stored F D P)) → IsSorted rs → IsSorted (filter p rs)
  IsSorted-filter p [] h = tt
  IsSorted-filter p (r ∷ rs) (h, k) = elim (Bool-cases (p r)) [
    | inl e ↦ rw e (All-filter (λ s. id_of r < id_of s) p rs h, IsSorted-filter p rs k)
    | inr e ↦ rw e (IsSorted-filter p rs k)
  ]

  -- The rows after an id.
  abbrev pub is_after : ℕ → Stored F D P → Bool
  is_after i r = leb (suc i) (id_of r)

  All-is_after :
      (i : ℕ) (rs : List (Stored F D P))
      → All (λ s. i < id_of s) rs
      → All (λ s. is_after i s ≡ true) rs
  All-is_after i [] h = tt
  All-is_after i (r ∷ rs) (h, k) = (ground arith, All-is_after i rs k)

  last_id-ge :
      (i : ℕ) (front back : List (Stored F D P))
      → IsSorted (front ++ back)
      → All (λ s. i < id_of s) (front ++ back)
      → i ≤ last_id i front
  last_id-ge i [] back h k = omega arith
  last_id-ge i (r ∷ rs) back (h, hs) (k, ks) = omega (arith, last_id-ge (id_of r) rs back hs h)

  -- In sorted rows, those after the last one of a first part are the second part.
  pub filter-is_after :
      (i : ℕ) (front back : List (Stored F D P))
      → IsSorted (front ++ back)
      → All (λ s. i < id_of s) (front ++ back)
      → filter (is_after (last_id i front)) (front ++ back) ≡ back
  filter-is_after i [] back sorted after = filter-All (is_after i) back (All-is_after i back after)
  filter-is_after i (r ∷ rs) back (first, sorted) after =
      let bound = last_id-ge (id_of r) rs back sorted first in
      let before : is_after (last_id (id_of r) rs) r ≡ false = ground arith in
      rw before (filter-is_after (id_of r) rs back sorted first)

-- A serial id that is not the last `int32`.
abbrev pub IsRowId : {F D P : Type 0} → Stored F D P → Type 0
IsRowId r = (0 < id_of r) × (id_of r + 1 < sign_bit)

module _ {F D P E : Type 0} (store : Store F D P E) where
  -- The messages of rows that can be decoded.
  abbrev pub messages : List (Stored F D P) → List E
  messages [] = []
  messages (r ∷ rs) = elim (store.unmarshal r.info.protodata) [
    | none ↦ messages rs
    | some m ↦ m ∷ messages rs
  ]

  abbrev pub Decodes : Stored F D P → Type 0
  Decodes r = (m : E) × (store.unmarshal r.info.protodata ≡ some m)

  -- The database runs queries over a table as documented: it returns the selected rows, in the order
  -- of the table, which is by id, up to the limit. Ids are positive `int32` below the largest, and what
  -- is stored can be decoded. Rows may share an id.
  pub record Answers (at_most : D → D → Bool) (rows : Table → List (Stored F D P)) (table : Table)
      : Type 0 where
    pub selects :
        (q : Query D)
        → q.table ≡ table
        → q.limit < long_sign
        → store.all q
          ≡ done (map (λ r. r.info) (take q.limit (filter (matches at_most q) (rows q.table))))
    pub in_range : All IsRowId (rows table)
    pub decodes : All Decodes (rows table)

  -- The result is the page of the given rows.
  abbrev pub IsPage : List (Stored F D P) → Result (RangeContainer F E) → Type 0
  IsPage rs result =
      (ret : RangeContainer F E) × (result ≡ done ret)
      × (ret.items ≡ messages rs)
      × (ret.last_rs_info_id ≡ last_id 0 rs)

  pub messages-append :
      (xs ys : List (Stored F D P)) → messages (xs ++ ys) ≡ messages xs ++ messages ys
  messages-append [] ys = refl
  messages-append (r ∷ rs) ys =
      by_message (store.unmarshal r.info.protodata) (messages-append rs ys)
    where
      by_message :
          (o : Option E)
          → messages (rs ++ ys) ≡ messages rs ++ messages ys
          → elim o [ none ↦ messages (rs ++ ys) | some m ↦ m ∷ messages (rs ++ ys) ]
            ≡ elim o [ none ↦ messages rs | some m ↦ m ∷ messages rs ] ++ messages ys
      by_message none h = h
      by_message (some m) h = ap {B = List E} (λ r. m ∷ r) h

  collect-messages :
      (ret : RangeContainer F E) (rs : List (Stored F D P))
      → All Decodes rs
      → (ret' : RangeContainer F E) × (collect store ret (map (λ r. r.info) rs) ≡ done ret')
        × (ret'.items ≡ ret.items ++ messages rs)
        × (ret'.last_rs_info_id ≡ last_id ret.last_rs_info_id rs)
  unfolding collect
  collect-messages ret [] h = (ret, refl, sym (append-nil ret.items), refl)
  collect-messages ret (r ∷ rs) ((m, e), h) =
      let (ret', f, items, last) =
        collect-messages
          (record {
            items = ret.items ++ m ∷ [];
            last_timestamp = r.info.at_stamp;
            last_session_time = r.info.at_session_time;
            last_rs_info_id = r.info.info_id;
          })
          rs h in
      (ret', rw e f, rw (e, messages) (items ∙ append_assoc ret.items (m ∷ []) (messages rs)), last)

  -- A query within the limits of `int` gives the page of the rows that it selects.
  pub load_rows-IsPage :
      (at_most : D → D → Bool) (rows : Table → List (Stored F D P))
      → (table : Table) → Answers at_most rows table
      → (q : Query D) → q.table ≡ table
      → q.limit < long_sign
      → IsPage (take q.limit (filter (matches at_most q) (rows q.table))) (load_rows store q)
  unfolding load_rows
  load_rows-IsPage at_most rows table a q same h =
      let rs = take q.limit (filter (matches at_most q) (rows q.table)) in
      let readable = All-take Decodes q.limit (filter (matches at_most q) (rows q.table)) (
        All-filter Decodes (matches at_most q) (rows q.table)
          (subst (λ t. All Decodes (rows t)) (sym same) a.decodes)) in
      let (ret, e, items, last) =
        collect-messages
          (record {
            items = [];
            last_timestamp = 0;
            last_session_time = store.zero_float;
            last_rs_info_id = 0;
          })
          rs readable in
      (ret, rw (a.selects q same h) e, items, last)
