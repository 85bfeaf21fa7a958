-- ===== src/Stream/Dedup/Room.antt =====
-- Recording below the bound: src/fl_op/stream/dedup.py.
use fl_op.Base.{
  ◌&&◌, not, not, ℕ, ◌+◌, ◌≤◌, ◌≡◌, refl, true, false, ◌||◌, List, [], ◌∷◌, ◌++◌, Text, text_eq,
  contains, contains-append, arith, Bool-cases, inl, inr, length, length-append, ltb,
}
use fl_op.Base.Strip.{is_empty}
use fl_op.Stream.Dedup.{EventDedupStore, collect_new, append_ids, record_published}
use fl_op.Stream.Dedup.Durable.{contains-collect_new}
use fl_op.Stream.Dedup.Retention.{length-collect_new}

pub no_ids : (ids : List Text) → is_empty ids ≡ true → (i : Text) → contains i ids ≡ false
unfolding contains
no_ids [] e i = refl
no_ids (x ∷ ids) e i = cc

-- A store that has room for `ids` is not compacted: it knows what it knew and those of them that are
-- not empty, and it has no more ids than it had and these.
pub record_published_in_room :
    (max_ids : ℕ) (ids : List Text) (s : EventDedupStore)
    → length s.ids + length ids ≤ max_ids
    → ((i : Text)
        → contains i (record_published max_ids ids s).seen
          ≡ (contains i s.seen || (not (is_empty i) && contains i ids)))
      × (length (record_published max_ids ids s).ids ≤ length s.ids + length ids)
unfolding record_published append_ids
record_published_in_room max_ids ids s room =
    let new = collect_new s.seen ids in
    let few = length-collect_new s.seen ids in
    elim (Bool-cases (is_empty new)) [
      | inl nothing ↦ rw nothing (
        (λ i. ground (arith, contains-collect_new i s.seen ids, no_ids new nothing i)),
        omega arith,
      )
      | inr some_new ↦ rw some_new (
          let short : ltb max_ids (length (s.ids ++ new)) ≡ false =
            ground (arith, length-append s.ids new, few) in
          rw short (
            (λ i. ground (arith, contains-append i s.seen new, contains-collect_new i s.seen ids)),
            omega (arith, length-append s.ids new, few),
          ))
    ]
