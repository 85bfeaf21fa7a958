-- ===== src/Stream/Broker/Course.antt =====
-- The course of an iteration, built up poll by poll: the loop of src/fl_op/stream/broker.py.
use fl_op.Base.{
  ℕ, suc, ◌<◌, ◌≤◌, ◌≡◌, refl, sym, ap, ◌∙◌, none, some, true, false, List, [], ◌∷◌, ◌++◌, arith,
  Bool-cases, inl, inr, length, if◌then◌else◌,
}
use fl_op.Stream.Apply.Rows.{Host}
use fl_op.Stream.Apply.Upserts.{ExecutionEvent}
use fl_op.Stream.Source.{Codec}
use fl_op.Stream.Broker.Answers.{
  Backlog, event_of, accepted, raises, Answer, messages, IsClean, idle_next, InBound, EndsBy,
  Answers,
}
use fl_op.Stream.Broker.{
  raised, Ending, Message, Consumer, Read, event_read, skipped, unicode_error, attribute_raised,
  type_raised, not_followed, read_message, finished, out_of_fuel, Drain, polls_on, after_read, stop,
}

module _ (h : Host) (k : Codec h) (client : Consumer h.Float) (b : Backlog client)
    (max_empty : ℕ) where
  -- The course of an iteration: the answers to its polls, at most as many as the fuel, their messages
  -- are the front of the backlog, and they account for its events and its ending.
  abbrev pub Course : ℕ → ℕ → client.S → List (ExecutionEvent h) → Ending h → client.S → Type 0
  Course fuel n s events ending last =
      (answers : List (Answer h k)) × Answers client s answers last
      × (length answers ≤ fuel)
      × (b.visible s ≡ messages h k answers ++ b.visible last)
      × (events ≡ accepted h k (messages h k answers))
      × InBound h k max_empty n answers
      × EndsBy h k max_empty n answers ending

  abbrev pub Drained : ℕ → ℕ → client.S → Drain h k client → Type 0
  Drained fuel n s d = Course fuel n s d.events d.ending d.consumer

  -- The events of one answer.
  abbrev given : Answer h k → List (ExecutionEvent h)
  given none = []
  given (some m) = if m.has_error then [] else event_of h k (read_message h k m)

  accepted-cons :
      (a : Answer h k) (answers : List (Answer h k))
      → accepted h k (messages h k (a ∷ answers)) ≡ given a ++ accepted h k (messages h k answers)
  unfolding accepted
  accepted-cons none answers = refl
  accepted-cons (some m) answers = elim (Bool-cases m.has_error) [
    | inl failed ↦ rw failed refl
    | inr ok ↦ rw ok refl
  ]

  visible-cons :
      (s last : client.S) (a : Answer h k) (answers : List (Answer h k))
      → (client.poll s).0 ≡ a
      → b.visible (client.poll s).1 ≡ messages h k answers ++ b.visible last
      → b.visible s ≡ messages h k (a ∷ answers) ++ b.visible last
  visible-cons s last none answers got front = sym (b.poll_none s got) ∙ front
  visible-cons s last (some m) answers got front = b.poll_some s m got ∙ ap (λ l. m ∷ l) front

  EndsBy-cons :
      (n : ℕ) (a : Answer h k) (answers : List (Answer h k)) (ending : Ending h)
      → IsClean h k a
      → EndsBy h k max_empty (idle_next h k n a) answers ending
      → EndsBy h k max_empty n (a ∷ answers) ending
  EndsBy-cons n a answers out_of_fuel clean ends = tt
  EndsBy-cons n a answers finished clean (idle, rest) = (idle, (clean, rest))
  EndsBy-cons n a answers (raised r) clean (front, m, same, ok, read, raising, rest) =
      (a ∷ front, m, ap (λ l. a ∷ l) same, ok, read, raising, (clean, rest))

  -- One poll more, whose answer does not end the iteration.
  pub Course-cons :
      (fuel n next : ℕ) (s : client.S) (a : Answer h k) (here events : List (ExecutionEvent h))
      (ending : Ending h) (last : client.S)
      → (client.poll s).0 ≡ a
      → n < max_empty
      → IsClean h k a
      → idle_next h k n a ≡ next
      → given a ≡ here
      → Course fuel next (client.poll s).1 events ending last
      → Course (suc fuel) n s (here ++ events) ending last
  Course-cons fuel n next s a here events ending last got on clean counted yields
        (answers, polls, short, front, yielded, bound, ends) =
      (
        a ∷ answers,
        (got, polls),
        omega (arith, short),
        visible-cons s last a answers got front,
        rw (← yields, yielded) (sym (accepted-cons a answers)),
        (on, rw counted bound),
        EndsBy-cons n a answers ending clean (rw counted ends),
      )

  Course-raised :
      (fuel n : ℕ) (s : client.S) (m : Message h.Float) (r : Read h)
      → (client.poll s).0 ≡ some m
      → n < max_empty
      → m.has_error ≡ false
      → r ≡ read_message h k m
      → raises h k r ≡ true
      → Course (suc fuel) n s [] (raised r) (client.poll s).1
  unfolding accepted read_message
  Course-raised fuel n s m r got on ok is raising = (
    some m ∷ [],
    (got, refl),
    omega arith,
    b.poll_some s m got,
    rw (ok, ← is) (no_event r raising),
    (on, tt),
    ([], m, refl, ok, sym is, raising, tt),
  )
    where
      no_event : (r : Read h) → raises h k r ≡ true → [] ≡ event_of h k r ++ []
      no_event (event_read event) raising = cc
      no_event skipped raising = refl
      no_event unicode_error raising = refl
      no_event attribute_raised raising = refl
      no_event type_raised raising = refl
      no_event not_followed raising = refl

  pub after_read-Drained :
      (fuel n : ℕ) (s : client.S) (m : Message h.Float) (r : Read h) (rest : Drain h k client)
      → (client.poll s).0 ≡ some m
      → n < max_empty
      → m.has_error ≡ false
      → r ≡ read_message h k m
      → Drained fuel 0 (client.poll s).1 rest
      → Drained (suc fuel) n s (after_read h k client r (client.poll s).1 rest)
  unfolding after_read read_message
  after_read-Drained fuel n s m (event_read event) rest got on ok is course =
      Course-cons fuel n 0 s (some m) (event ∷ []) rest.events rest.ending rest.consumer got on
        (rw (ok, ← is) refl) (rw ok refl) (rw (ok, ← is) refl) course
  after_read-Drained fuel n s m skipped rest got on ok is course =
      Course-cons fuel n 0 s (some m) [] rest.events rest.ending rest.consumer got on
        (rw (ok, ← is) refl) (rw ok refl) (rw (ok, ← is) refl) course
  after_read-Drained fuel n s m unicode_error rest got on ok is course =
      Course-raised fuel n s m unicode_error got on ok is refl
  after_read-Drained fuel n s m attribute_raised rest got on ok is course =
      Course-raised fuel n s m attribute_raised got on ok is refl
  after_read-Drained fuel n s m type_raised rest got on ok is course =
      Course-raised fuel n s m type_raised got on ok is refl
  after_read-Drained fuel n s m not_followed rest got on ok is course =
      Course-raised fuel n s m not_followed got on ok is refl

  pub over-Drained :
      (fuel n : ℕ) (s : client.S)
      → polls_on h k client (some max_empty) n ≡ false
      → n ≤ max_empty
      → Drained fuel n s (stop h k client finished s)
  unfolding polls_on accepted
  over-Drained fuel n s over within =
      ([], refl, omega arith, refl, refl, tt, (ground (arith, over, within), tt))
