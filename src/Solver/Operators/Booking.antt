-- ===== src/Solver/Operators/Booking.antt =====
-- No backup operator is booked twice: the claims of src/fl_op/solver/enforcement.py.
use mathlib.Core.Path.{subst}
use fl_op.Base.{
  any-append, All-map, ℕ, ◌≡◌, refl, ap, ◌∙◌, Option, none, some, or_else, Bool, false, ◌&&◌, ◌||◌,
  List, [], ◌∷◌, ◌++◌, Text, text_eq, arith, Bool-cases, inl, inr, any, All, ◌==◌,
}
use fl_op.Base.Dict.{Dict, get-put}
use fl_op.Solver.Intervals.{Interval, merge_busy}
use fl_op.Solver.Intervals.Merge.{covers_half, any-merge_busy}
use fl_op.Solver.Operators.{
  Reading, Operators, busy_of, scan, BackupClaim, choose, commit_claim, claim_backup_operator,
  claim_all,
}
use fl_op.Solver.Operators.Claims.{apart, MayBackUp, scan-Sound, choose-Sound}

module _ (r : Reading) (operators : Operators) (main_claimed : List Text)
    (free_capacity : Dict Text r.Float) where
  -- Whether an operator is booked at an instant.
  abbrev pub booked : ℕ → Text → Dict Text (List Interval) → Bool
  booked x id busy = any (covers_half x) (busy_of r id busy)

  commit_claim-booked :
      (x : ℕ) (id other : Text) (overlap : Bool) (demand : List Interval)
      (busy : Dict Text (List Interval))
      → booked x other (commit_claim r (some id, overlap) demand busy)
        ≡ (booked x other busy || (id == other && any (covers_half x) demand))
  commit_claim-booked x id other overlap demand busy =
      let merged = merge_busy (busy_of r id busy ++ demand) in
      ap (λ o. any (covers_half x) (or_else o [])) (get-put id other merged busy)
      ∙ elim (Bool-cases (id == other)) [
        | inl same ↦ rw same (
            any-merge_busy x (busy_of r id busy ++ demand)
            ∙ any-append (covers_half x) (busy_of r id busy) demand
            ∙ ap (λ o. any (covers_half x) (busy_of r o busy) || any (covers_half x) demand)
                ((text_eq.agrees_iff id other).0 same))
        | inr differs ↦ rw differs (ground arith)
      ]

  -- A claim without sharing: the operator may back up the operation, and it is not booked at any
  -- instant of the demand.
  pub claim-clear :
      (operation : Text) (demand : List Interval) (busy : Dict Text (List Interval)) (id : Text)
      → (claim_backup_operator r false operators main_claimed free_capacity operation demand
          busy).0.0
        ≡ some id
      → MayBackUp r main_claimed operation operators id
        × ((x : ℕ) → (booked x id busy && any (covers_half x) demand) ≡ false)
  unfolding claim_backup_operator
  claim-clear operation demand busy id e =
      let bests =
        scan r operation main_claimed busy demand free_capacity operators
          ((none, r.minus_one), (none, r.minus_one)) in
      let sound =
        scan-Sound r main_claimed operation operators busy demand free_capacity operators
          ((none, r.minus_one), (none, r.minus_one)) (λ o m. m) ((λ i q. cc), (λ i q. cc)) in
      let (backs, clear) =
        choose-Sound r main_claimed operation operators busy demand false bests id sound e in
      (backs, λ x. apart x (busy_of r id busy) demand (clear (never_shared bests)))
    where
      never_shared : (bests : _) → (choose r false bests).1 ≡ false
      never_shared ((some o, s), overlap) = refl
      never_shared ((none, s), (best, score)) = refl

  -- The entries of one operator exclude each other: no later demand of it meets an earlier one.
  abbrev Avoids : Option Text → List Interval → List (BackupClaim r × List Interval) → Type 0
  Avoids none demand later = Unit
  Avoids (some id) demand later =
      All
        (λ (c : BackupClaim r × List Interval).
          c.0.0 ≡ some id
          → (x : ℕ) → (any (covers_half x) demand && any (covers_half x) c.1) ≡ false)
        later

  abbrev pub IsExclusive : List (BackupClaim r × List Interval) → Type 0
  IsExclusive [] = Unit
  IsExclusive ((claim, demand) ∷ later) = Avoids claim.0 demand later × IsExclusive later

  -- No claim of the operator meets what is booked for it.
  abbrev Clear :
      (id : Text) → Dict Text (List Interval) → List (BackupClaim r × List Interval) → Type 0
  Clear id busy claims =
      All
        (λ (c : BackupClaim r × List Interval).
          c.0.0 ≡ some id → (x : ℕ) → (booked x id busy && any (covers_half x) c.1) ≡ false)
        claims

  booked_grows :
      (x : ℕ) (id : Text) (claim : BackupClaim r) (demand : List Interval)
      (busy : Dict Text (List Interval)) (b : Bool)
      → (booked x id (commit_claim r claim demand busy) && b) ≡ false
      → (booked x id busy && b) ≡ false
  booked_grows x id (none, overlap) demand busy b e = e
  booked_grows x id (some o, overlap) demand busy b e =
      shrink _ (booked x id busy) (o == id && any (covers_half x) demand) b
        (commit_claim-booked x o id overlap demand busy) e
    where
      shrink : (g p q b : Bool) → g ≡ (p || q) → (g && b) ≡ false → (p && b) ≡ false
      shrink g p q b e f = ground (arith, e, f)

  claim_all-Clear :
      (requests : List (Text × List Interval)) (busy : Dict Text (List Interval)) (id : Text)
      → Clear id busy (claim_all r false operators main_claimed free_capacity requests busy).0
  unfolding claim_all
  claim_all-Clear [] busy id = tt
  claim_all-Clear ((operation, demand) ∷ requests) busy id =
      let result =
        claim_backup_operator r false operators main_claimed free_capacity operation demand busy in
      (
        λ e x. (claim-clear operation demand busy id e).1 x,
        All-map _
            (λ c clear e x. booked_grows x id result.0 demand busy _ (
              subst (λ b. (booked x id b && any (covers_half x) c.1) ≡ false)
                (claimed operation demand busy) (clear e x)))
            (claim_all-Clear requests result.1 id),
      )
    where
      claimed :
          (operation : Text) (demand : List Interval) (busy : Dict Text (List Interval))
          → let result =
              claim_backup_operator r false operators main_claimed free_capacity operation demand
                busy in
            result.1 ≡ commit_claim r result.0 demand busy
      claimed operation demand busy = unfold claim_backup_operator in refl

  demand_booked :
      (x : ℕ) (id : Text) (overlap : Bool) (demand : List Interval)
      (busy : Dict Text (List Interval)) (b : Bool)
      → (booked x id (commit_claim r (some id, overlap) demand busy) && b) ≡ false
      → (any (covers_half x) demand && b) ≡ false
  demand_booked x id overlap demand busy b e =
      ground (arith, e, commit_claim-booked x id id overlap demand busy, text_eq.agrees_iff id id)

  head-Avoids :
      (claim : BackupClaim r) (demand : List Interval) (busy : Dict Text (List Interval))
      (later : List (BackupClaim r × List Interval))
      → ((id : Text) → Clear id (commit_claim r claim demand busy) later)
      → Avoids claim.0 demand later
  head-Avoids (none, overlap) demand busy later clear = tt
  head-Avoids (some id, overlap) demand busy later clear =
      All-map later (λ c free e x. demand_booked x id overlap demand busy _ (free e x)) (clear id)

  -- Without sharing, no backup operator is booked twice: over any sequence of claims and from any
  -- calendar, the demands for which one operator is claimed have no instant in common.
  pub claim_all-IsExclusive :
      (requests : List (Text × List Interval)) (busy : Dict Text (List Interval))
      → IsExclusive (claim_all r false operators main_claimed free_capacity requests busy).0
  unfolding claim_all claim_backup_operator
  claim_all-IsExclusive [] busy = tt
  claim_all-IsExclusive ((operation, demand) ∷ requests) busy =
      let result =
        claim_backup_operator r false operators main_claimed free_capacity operation demand busy in
      (
        head-Avoids result.0 demand busy _ (λ id. claim_all-Clear requests result.1 id),
        claim_all-IsExclusive requests result.1,
      )
