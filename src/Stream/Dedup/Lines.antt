-- ===== src/Stream/Dedup/Lines.antt =====
-- Reading back what was written: src/fl_op/stream/dedup.py.
use mathlib.Core.List.{append_assoc, append-nil}
use fl_op.Base.{
  contains-append, contains_head, ◌≡◌, refl, ap, ◌∙◌, true, false, List, [], ◌∷◌, ◌++◌, Text,
  text_eq, contains, Distinct, All, arith,
}
use fl_op.Base.Strip.{strip, is_empty}
use fl_op.Stream.Dedup.{is_line_break, lines_from, split_lines, written, load, joined}

-- An id that one line of the file can hold as it is.
pub record IsClean (event_id : Text) : Type 0 where
  pub present : is_empty event_id ≡ false
  pub trimmed : strip event_id ≡ event_id
  pub one_line : All (λ c. is_line_break c ≡ false) event_id

-- A line without breaks is read to its end.
lines_from-line :
    (id line rest : Text)
    → All (λ c. is_line_break c ≡ false) id
    → lines_from false line (id ++ 10 ∷ rest) ≡ (line ++ id) ∷ lines_from false [] rest
unfolding lines_from
lines_from-line [] line rest h = rw append-nil
lines_from-line (c ∷ id) line rest h =
    rw (h.0, lines_from-line id (line ++ c ∷ []) rest h.1, append_assoc)

pub split_lines-written :
    (ids : List Text)
    → All (λ i. All (λ c. is_line_break c ≡ false) i) ids
    → split_lines (written ids) ≡ ids
unfolding split_lines written
split_lines-written [] h = refl
split_lines-written (i ∷ ids) h =
    lines_from-line i [] (written ids) h.0 ∙ ap (λ r. i ∷ r) (split_lines-written ids h.1)

-- No id of the list is known.
abbrev pub Fresh : List Text → List Text → Type 0
Fresh seen ids = (i : Text) → contains i ids ≡ true → contains i seen ≡ false

Fresh-snoc :
    (seen ids : List Text) (i : Text)
    → Fresh seen (i ∷ ids)
    → contains i ids ≡ false
    → Fresh (seen ++ i ∷ []) ids
unfolding contains
Fresh-snoc seen ids i h new x m =
    ground (arith, h x, contains-append x seen (i ∷ []), text_eq.agrees_iff i x)

pub load-clean :
    (seen ids : List Text)
    → All IsClean ids
    → Distinct ids
    → Fresh seen ids
    → load seen ids ≡ seen ++ ids
unfolding load
load-clean seen [] clean d h = rw append-nil
load-clean seen (i ∷ ids) clean d h =
    rw (clean.0.trimmed, clean.0.present, h i (contains_head i ids))
      (load-clean (seen ++ i ∷ []) ids clean.1 d.1 (Fresh-snoc seen ids i h d.0)
        ∙ append_assoc seen (i ∷ []) ids)

pub written-append : (xs ys : List Text) → written (xs ++ ys) ≡ written xs ++ written ys
unfolding written
written-append [] ys = refl
written-append (x ∷ xs) ys = rw (written-append xs ys, append_assoc)

pub joined-written : (i : Text) (ids : List Text) → joined (i ∷ ids) ≡ written (i ∷ ids)
unfolding joined written
joined-written i [] = refl
joined-written i (j ∷ ids) = rw (joined-written j ids)
