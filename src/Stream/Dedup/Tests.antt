-- ===== src/Stream/Dedup/Tests.antt =====
-- The id store on concrete batches: src/fl_op/stream/dedup.py.
use fl_op.Base.{contains, ◌≡◌, refl, none, true, false, List, [], ◌∷◌, Text, codes, All, arith}
use fl_op.Base.Strip.{strip}
use fl_op.Stream.Dedup.{is_line_break, open_store, record_published, store_contains}
use fl_op.Stream.Dedup.Lines.{IsClean}
use fl_op.Stream.Dedup.Durable.{record_batches, restart_keeps}
use fl_op.Stream.Dedup.Retention.{record_published_remembers, untrimmed_forgotten}

abbrev e1 : Text
e1 = codes "e1"

abbrev e2 : Text
e2 = codes "e2"

abbrev e3 : Text
e3 = codes "e3"

abbrev batches : List (List Text)
batches = (e1 ∷ e2 ∷ []) ∷ (e2 ∷ e3 ∷ []) ∷ []

batches-IsClean : All (λ b. All IsClean b) batches
unfolding strip is_line_break
batches-IsClean = ground arith

restart_keeps_example :
    store_contains (open_store (record_batches 2 batches (open_store none)).file) e1
    ≡ store_contains (record_batches 2 batches (open_store none)) e1
restart_keeps_example = restart_keeps 2 batches e1 batches-IsClean

ids_after : (record_batches 2 batches (open_store none)).ids ≡ e2 ∷ e3 ∷ []
unfolding record_batches record_published open_store contains
ids_after = refl

record_published_remembers_example :
    store_contains
      (record_published 2 (e2 ∷ e3 ∷ []) (record_published 2 (e1 ∷ []) (open_store none)))
      e3
    ≡ true
unfolding store_contains record_published open_store contains
record_published_remembers_example =
    record_published_remembers 2 (e2 ∷ e3 ∷ []) (record_published 2 (e1 ∷ []) (open_store none)) e3
      (omega arith) (λ e. cc) refl refl

untrimmed_forgotten_example :
    (store_contains (record_published 2 (codes " e" ∷ []) (open_store none)) (codes " e") ≡ true)
    × (store_contains
          (open_store (record_published 2 (codes " e" ∷ []) (open_store none)).file)
          (codes " e")
        ≡ false)
unfolding is_line_break strip
untrimmed_forgotten_example =
    untrimmed_forgotten 2 (codes " e") (omega arith) (refl, (refl, tt)) (λ e. cc)
