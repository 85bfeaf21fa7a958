-- ===== src/Stream/Dedup/Durable.antt =====
-- What survives a restart: src/fl_op/stream/dedup.py.
use fl_op.Base.{
  length-drop, ltb_iff, ℕ, ◌-◌, ◌<◌, ◌≡◌, refl, ap, sym, ◌∙◌, none, List, [], ◌∷◌, ◌++◌, Text,
  text_eq, contains, contains-append, Distinct, Distinct-append, ==_refl, zero, suc, All,
  All-append, All-drop, All-map, arith, Bool-cases, inl, inr, not, ◌&&◌, length, drop, ltb, eqb,
}
use fl_op.Base.Strip.{is_empty}
use fl_op.Stream.Dedup.{
  EventDedupStore, contents, split_lines, written, load, is_new, newest, joined, compact,
  append_ids, collect_new, open_store, record_published, compact_past, store_contains,
}
use fl_op.Stream.Dedup.Lines.{
  IsClean, load-clean, split_lines-written, written-append, joined-written,
}

-- The file holds the ids, one to a line; the ids are distinct, and the set has the same ones.
pub record IsValid (s : EventDedupStore) : Type 0 where
  pub on_file : contents s.file ≡ written s.ids
  pub clean : All IsClean s.ids
  pub distinct : Distinct s.ids
  pub same : (i : Text) → contains i s.seen ≡ contains i s.ids

load-written :
    (ids : List Text) → All IsClean ids → Distinct ids → load [] (split_lines (written ids)) ≡ ids
load-written ids clean d =
    ap (load []) (split_lines-written ids (All-map ids (λ i c. c.one_line) clean))
    ∙ load-clean [] ids clean d (unfold contains in λ i m. refl)

-- A store that is opened on the file of a valid one has its ids, in its order.
pub ids-reopen : (s : EventDedupStore) → IsValid s → (open_store s.file).ids ≡ s.ids
unfolding open_store
ids-reopen s v = rw v.on_file (load-written s.ids v.clean v.distinct)

-- The new ids are those that are not empty and not known, each once.
pub contains-collect_new :
    (x : Text) (seen ids : List Text)
    → contains x (collect_new seen ids)
      ≡ (not (is_empty x) && (contains x ids && not (contains x seen)))
unfolding collect_new contains
contains-collect_new x seen [] = ground arith
contains-collect_new x seen (i ∷ ids) = ground (
  arith,
  contains-collect_new x seen ids,
  contains-collect_new x (seen ++ i ∷ []) ids,
  contains-append x seen (i ∷ []),
  text_eq.agrees_iff i x,
)

collect_new-Distinct : (seen ids : List Text) → Distinct (collect_new seen ids)
unfolding collect_new
collect_new-Distinct seen [] = tt
collect_new-Distinct seen (i ∷ ids) = elim (Bool-cases (is_new i seen)) [
  | inl new ↦ rw new (
    unfold contains in
        ground (
          arith,
          contains-collect_new i (seen ++ i ∷ []) ids,
          contains-append i seen (i ∷ []),
          ==_refl i,
        ),
    collect_new-Distinct (seen ++ i ∷ []) ids,
  )
  | inr old ↦ rw old (collect_new-Distinct seen ids)
]

collect_new-IsClean : (seen ids : List Text) → All IsClean ids → All IsClean (collect_new seen ids)
unfolding collect_new
collect_new-IsClean seen [] h = tt
collect_new-IsClean seen (i ∷ ids) h = elim (Bool-cases (is_new i seen)) [
  | inl new ↦ rw new (h.0, collect_new-IsClean (seen ++ i ∷ []) ids h.1)
  | inr old ↦ rw old (collect_new-IsClean seen ids h.1)
]

append_ids-IsValid :
    (event_ids : List Text) (s : EventDedupStore)
    → All IsClean event_ids
    → IsValid s
    → IsValid (append_ids (collect_new s.seen event_ids) s)
unfolding append_ids
append_ids-IsValid event_ids s clean v = record {
  on_file = rw (v.on_file, written-append);
  clean = All-append IsClean s.ids _ v.clean (collect_new-IsClean s.seen event_ids clean);
  distinct =
      Distinct-append s.ids (collect_new s.seen event_ids) v.distinct
        (collect_new-Distinct s.seen event_ids)
        (λ i m. ground (arith, v.same i, contains-collect_new i s.seen event_ids));
  same = λ i. rw (contains-append, contains-append, v.same i);
}

Distinct-drop : (n : ℕ) (xs : List Text) → Distinct xs → Distinct (drop n xs)
Distinct-drop zero xs d = d
Distinct-drop (suc n) [] d = tt
Distinct-drop (suc n) (x ∷ xs) d = Distinct-drop n xs d.1

joined-written_pos : (xs : List Text) → 0 < length xs → joined xs ≡ written xs
joined-written_pos [] h = absurd (omega arith)
joined-written_pos (x ∷ xs) h = joined-written x xs

pub length-newest : (n : ℕ) (xs : List Text) → n < length xs → 0 < length (newest n xs)
unfolding newest
length-newest n xs h = ground (arith, length-drop (length xs - n) xs)

newest-Distinct : (n : ℕ) (xs : List Text) → Distinct xs → Distinct (newest n xs)
unfolding newest
newest-Distinct n xs d = elim (Bool-cases (eqb n 0)) [
  | inl e ↦ rw e d
  | inr e ↦ rw e (Distinct-drop (length xs - n) xs d)
]

newest-IsClean : (n : ℕ) (xs : List Text) → All IsClean xs → All IsClean (newest n xs)
unfolding newest
newest-IsClean n xs d = elim (Bool-cases (eqb n 0)) [
  | inl e ↦ rw e d
  | inr e ↦ rw e (All-drop IsClean (length xs - n) xs d)
]

compact-IsValid :
    (max_ids : ℕ) (s : EventDedupStore)
    → max_ids < length s.ids
    → IsValid s
    → IsValid (compact max_ids s)
compact-IsValid max_ids s long v = record {
  on_file =
      unfold compact in
      joined-written_pos (newest max_ids s.ids) (length-newest max_ids s.ids long);
  clean = unfold compact in newest-IsClean max_ids s.ids v.clean;
  distinct = unfold compact in newest-Distinct max_ids s.ids v.distinct;
  same = unfold compact in λ i. refl;
}

compact_past-IsValid :
    (max_ids : ℕ) (s : EventDedupStore) → IsValid s → IsValid (compact_past max_ids s)
compact_past-IsValid max_ids s v = elim (Bool-cases (ltb max_ids (length s.ids))) [
  | inl long ↦ rw long (compact-IsValid max_ids s ((ltb_iff _ _).0 long) v)
  | inr short ↦ rw short v
]

-- Recording clean ids keeps the store valid, compaction included.
pub record_published-IsValid :
    (max_ids : ℕ) (event_ids : List Text) (s : EventDedupStore)
    → All IsClean event_ids
    → IsValid s
    → IsValid (record_published max_ids event_ids s)
unfolding record_published
record_published-IsValid max_ids event_ids s clean v =
    elim (Bool-cases (is_empty (collect_new s.seen event_ids))) [
      | inl nothing ↦ rw nothing v
      | inr some_new ↦
          rw some_new (compact_past-IsValid max_ids _ (append_ids-IsValid event_ids s clean v))
    ]

-- Any number of batches, each recorded after its publication.
unfoldable pub record_batches : ℕ → List (List Text) → EventDedupStore → EventDedupStore
record_batches max_ids [] s = s
record_batches max_ids (b ∷ bs) s = record_batches max_ids bs (record_published max_ids b s)

record_batches-IsValid :
    (max_ids : ℕ) (batches : List (List Text)) (s : EventDedupStore)
    → All (λ b. All IsClean b) batches
    → IsValid s
    → IsValid (record_batches max_ids batches s)
unfolding record_batches
record_batches-IsValid max_ids [] s clean v = v
record_batches-IsValid max_ids (b ∷ bs) s clean v =
    record_batches-IsValid max_ids bs (record_published max_ids b s) clean.1
      (record_published-IsValid max_ids b s clean.0 v)

pub IsValid-reopen : (s : EventDedupStore) → IsValid s → IsValid (open_store s.file)
IsValid-reopen s v = record {
  on_file = unfold open_store in rw (ids-reopen s v) v.on_file;
  clean = rw (ids-reopen s v) v.clean;
  distinct = rw (ids-reopen s v) v.distinct;
  same = unfold open_store in λ i. refl;
}

pub reopen_contains :
    (s : EventDedupStore) (i : Text)
    → IsValid s
    → store_contains (open_store s.file) i ≡ store_contains s i
unfolding store_contains open_store
reopen_contains s i v = rw (v.on_file, load-written s.ids v.clean v.distinct) (sym (v.same i))

pub empty-IsValid : IsValid (open_store none)
unfolding open_store written
empty-IsValid = record { on_file = refl; clean = tt; distinct = tt; same = λ i. refl }

-- A restart forgets nothing. After any batches of clean ids, from no file at all, a store that is
-- opened on the file knows exactly the ids that the running store knows.
pub restart_keeps :
    (max_ids : ℕ) (batches : List (List Text)) (i : Text)
    → All (λ b. All IsClean b) batches
    → let s = record_batches max_ids batches (open_store none) in
      store_contains (open_store s.file) i ≡ store_contains s i
restart_keeps max_ids batches i clean =
    reopen_contains (record_batches max_ids batches (open_store none)) i
      (record_batches-IsValid max_ids batches (open_store none) clean empty-IsValid)
