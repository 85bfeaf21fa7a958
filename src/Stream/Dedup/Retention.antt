-- ===== src/Stream/Dedup/Retention.antt =====
-- How many ids are kept, and which: src/fl_op/stream/dedup.py.
use fl_op.Base.{
  inr, contains_head, inl, Bool-cases, ◌==◌, length-drop, ℕ, zero, suc, ◌-◌, ◌≤◌, ◌<◌, ◌≡◌, ◌≢◌,
  refl, none, some, true, false, List, [], ◌∷◌, ◌++◌, Text, text_eq, contains, contains-append, All,
  arith, length, length-append, drop, ltb,
}
use fl_op.Base.Strip.{strip, is_empty}
use fl_op.Stream.Dedup.Lines.{split_lines-written}
use fl_op.Stream.Dedup.{
  load, split_lines, written, EventDedupStore, is_line_break, newest, compact, append_ids,
  collect_new, open_store, record_published, store_contains,
}
use fl_op.Stream.Dedup.Durable.{contains-collect_new}

length-newest_le : (n : ℕ) (xs : List Text) → 0 < n → length (newest n xs) ≤ n
unfolding newest
length-newest_le n xs h = ground (arith, length-drop (length xs - n) xs)

pub length-collect_new : (seen ids : List Text) → length (collect_new seen ids) ≤ length ids
unfolding collect_new
length-collect_new seen [] = omega arith
length-collect_new seen (i ∷ ids) =
    ground (arith, length-collect_new seen ids, length-collect_new (seen ++ i ∷ []) ids)

drop-append_le : (n : ℕ) (xs ys : List Text) → n ≤ length xs → drop n (xs ++ ys) ≡ drop n xs ++ ys
drop-append_le zero xs ys h = refl
drop-append_le (suc n) [] ys h = absurd (omega arith)
drop-append_le (suc n) (x ∷ xs) ys h = drop-append_le n xs ys (omega arith)

contains-newest :
    (n : ℕ) (x : Text) (xs ys : List Text)
    → length ys ≤ n
    → contains x ys ≡ true
    → contains x (newest n (xs ++ ys)) ≡ true
unfolding newest
contains-newest n x xs ys h m = ground (
  arith,
  contains-append x xs ys,
  contains-append x (drop (length (xs ++ ys) - n) xs) ys,
  drop-append_le (length (xs ++ ys) - n) xs ys,
  length-append xs ys,
)

not_empty : (x : Text) → x ≢ [] → is_empty x ≡ false
not_empty [] h = absurd (h refl)
not_empty (c ∷ x) h = refl

not_empty_of_contains : (i : Text) (xs : List Text) → contains i xs ≡ true → is_empty xs ≡ false
unfolding contains
not_empty_of_contains i [] m = cc
not_empty_of_contains i (x ∷ xs) m = refl

-- A new id that has just been published is known afterwards, also when the store is compacted, if
-- the batch is no longer than the bound.
pub record_published_remembers :
    (max_ids : ℕ) (event_ids : List Text) (s : EventDedupStore) (i : Text)
    → length event_ids ≤ max_ids
    → i ≢ []
    → contains i event_ids ≡ true
    → store_contains s i ≡ false
    → store_contains (record_published max_ids event_ids s) i ≡ true
unfolding record_published store_contains append_ids compact
record_published_remembers max_ids event_ids s i small present m unknown =
    let new = collect_new s.seen event_ids in
    let kept : contains i new ≡ true =
      rw contains-collect_new (rw (not_empty i present, m, unknown)) in
    rw (not_empty_of_contains i new kept) (elim (Bool-cases (ltb max_ids (length (s.ids ++ new)))) [
      | inl long ↦ rw long (
          contains-newest max_ids i s.ids new
            (omega (arith, small, length-collect_new s.seen event_ids)) kept)
      | inr short ↦ rw short (ground (arith, kept, contains-append i s.seen new))
    ])

reloaded_untrimmed :
    (i : Text)
    → All (λ c. is_line_break c ≡ false) i
    → (strip i == i) ≡ false
    → contains i (load [] (split_lines (written (i ∷ [])))) ≡ false
unfolding contains load
reloaded_untrimmed i one_line padded =
    rw (split_lines-written (i ∷ []) (one_line, tt)) (ground (arith, padded))

recorded_single :
    (max_ids c : ℕ) (i : Text)
    → 0 < max_ids
    → record_published max_ids ((c ∷ i) ∷ []) (open_store none)
      ≡ record { file = some (written ((c ∷ i) ∷ [])); ids = (c ∷ i) ∷ []; seen = (c ∷ i) ∷ [] }
unfolding record_published open_store collect_new append_ids contains
recorded_single max_ids c i pos = ground arith

-- An id with white space around it is known until the store is opened again, and not after: what
-- `__init__` reads back is the stripped text.
pub untrimmed_forgotten :
    (max_ids : ℕ) (i : Text)
    → 0 < max_ids
    → All (λ c. is_line_break c ≡ false) i
    → strip i ≢ i
    → let s = record_published max_ids (i ∷ []) (open_store none) in
      (store_contains s i ≡ true) × (store_contains (open_store s.file) i ≡ false)
untrimmed_forgotten max_ids [] pos one_line padded = absurd (padded (unfold strip in refl))
untrimmed_forgotten max_ids (c ∷ i) pos one_line padded = rw (recorded_single max_ids c i pos) (
    unfold store_contains open_store in
    (
      contains_head (c ∷ i) [],
      reloaded_untrimmed (c ∷ i) one_line
          (ground (arith, text_eq.agrees_iff (strip (c ∷ i)) (c ∷ i))),
    ))
