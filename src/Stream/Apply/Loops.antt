-- ===== src/Stream/Apply/Loops.antt =====
-- The loop over contracts of src/fl_op/stream/apply.py, read contract by contract.
use fl_op.Base.{
  ◌≡◌, refl, ◌∙◌, ap, Option, none, some, Bool, false, List, [], ◌∷◌, Text, text_eq, contains,
  if◌then◌else◌, ◌==◌, arith, Bool-cases, keep, inl, inr,
}
use fl_op.Base.Dict.{get}
use fl_op.Stream.Apply.Rows.{Host, Row, Sources, adjust, each}

abbrev pub option_map {ℓ κ} : {A : Type ℓ} {B : Type κ} → (A → B) → Option A → Option B
option_map f none = none
option_map f (some a) = some (f a)

pub option_map_idem {ℓ} :
    {A : Type ℓ} (f : A → A)
    → ((a : A) → f (f a) ≡ f a)
    → (o : Option A) → option_map f (option_map f o) ≡ option_map f o
option_map_idem f idem none = refl
option_map_idem f idem (some a) = ap some (idem a)

pub keep-keep {ℓ} : {A : Type ℓ} (p : A → Bool) (xs : List A) → keep p (keep p xs) ≡ keep p xs
keep-keep p [] = refl
keep-keep p (x ∷ xs) = elim (Bool-cases (p x)) [
  | inl taken ↦ rw taken (rw taken (ap (λ r. x ∷ r) (keep-keep p xs)))
  | inr dropped ↦ rw dropped (keep-keep p xs)
]

module _ (h : Host) where
  pub get-adjust :
      (j cid : Text) (f : List (Row h) → List (Row h)) (sources : Sources h)
      → get j (adjust h cid f sources)
        ≡ (if cid == j then option_map f (get j sources) else get j sources)
  unfolding get adjust
  get-adjust j cid f [] = ground arith
  get-adjust j cid f ((i, rows) ∷ sources) = ground (
    arith,
    text_eq.agrees_iff cid j,
    text_eq.agrees_iff i cid,
    text_eq.agrees_iff i j,
    get-adjust j cid f sources,
  )

  -- A loop whose step does nothing more the second time.
  pub get-each :
      (f : Text → List (Row h) → List (Row h)) (j : Text)
      → ((rows : List (Row h)) → f j (f j rows) ≡ f j rows)
      → (cids : List Text) (sources : Sources h)
      → get j (each h f cids sources)
        ≡ (if contains j cids then option_map (f j) (get j sources) else get j sources)
  unfolding each contains
  get-each f j idem [] sources = refl
  get-each f j idem (cid ∷ cids) sources =
      let later = get-each f j idem cids (adjust h cid (f cid) sources) in
      let here = get-adjust j cid (f cid) sources in
      let twice = option_map_idem (f j) idem (get j sources) in
      elim (Bool-cases (cid == j)) [
        | inl same ↦
            let e = (text_eq.agrees_iff cid j).0 same in
            ground (arith, later, here, twice, same, ap (λ i. option_map (f i) (get j sources)) e)
        | inr other ↦ ground (arith, later, here, other)
      ]

  -- A contract that the loop does not visit keeps its rows.
  pub get-each_other :
      (f : Text → List (Row h) → List (Row h)) (j : Text) (cids : List Text) (sources : Sources h)
      → contains j cids ≡ false
      → get j (each h f cids sources) ≡ get j sources
  unfolding each contains
  get-each_other f j [] sources out = refl
  get-each_other f j (cid ∷ cids) sources out =
      get-each_other f j cids (adjust h cid (f cid) sources) (ground arith)
      ∙ ground (
        arith,
        get-adjust j cid (f cid) sources,
        text_eq.agrees_iff cid j,
        text_eq.agrees_iff j cid,
      )
