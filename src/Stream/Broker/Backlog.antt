-- ===== src/Stream/Broker/Backlog.antt =====
-- Draining the visible backlog: the loop of src/fl_op/stream/broker.py.
use fl_op.Base.{
  ℕ, suc, zero, ◌+◌, ◌-◌, ◌*◌, ◌<◌, ◌≤◌, ◌≡◌, ◌≢◌, refl, Option, none, some, true, false, List, [],
  ◌∷◌, arith, Bool-cases, Option-cases, inl, inr, length,
}
use fl_op.Stream.Apply.Rows.{Host}
use fl_op.Stream.Source.{Codec}
use fl_op.Stream.Broker.Course.{Drained, Course-cons, after_read-Drained, over-Drained}
use fl_op.Stream.Broker.Answers.{Backlog, accepted}
use fl_op.Stream.Broker.{
  Message, Consumer, Read, event_read, skipped, unicode_error, attribute_raised, type_raised,
  not_followed, read_message, finished, out_of_fuel, Drain, polls_on, after_read, iterate, stop,
}

module _ (h : Host) (k : Codec h) (client : Consumer h.Float) where
  -- One turn of the loop, by what the poll gives.
  pub iterate_over :
      (fuel : ℕ) (bound : Option ℕ) (empty : ℕ) (s : client.S)
      → polls_on h k client bound empty ≡ false
      → iterate h k client (suc fuel) bound empty s ≡ stop h k client finished s
  unfolding iterate
  iterate_over fuel bound empty s over = rw over refl

  pub iterate_idle :
      (fuel : ℕ) (bound : Option ℕ) (empty : ℕ) (s : client.S)
      → polls_on h k client bound empty ≡ true
      → (client.poll s).0 ≡ none
      → iterate h k client (suc fuel) bound empty s
        ≡ iterate h k client fuel bound (suc empty) (client.poll s).1
  unfolding iterate
  iterate_idle fuel bound empty s on idle = rw on (rw idle refl)

  pub iterate_failed :
      (fuel : ℕ) (bound : Option ℕ) (empty : ℕ) (s : client.S) (m : Message h.Float)
      → polls_on h k client bound empty ≡ true
      → (client.poll s).0 ≡ some m
      → m.has_error ≡ true
      → iterate h k client (suc fuel) bound empty s
        ≡ iterate h k client fuel bound empty (client.poll s).1
  unfolding iterate
  iterate_failed fuel bound empty s m on got failed = rw on (rw got (rw failed refl))

  pub iterate_read :
      (fuel : ℕ) (bound : Option ℕ) (empty : ℕ) (s : client.S) (m : Message h.Float)
      → polls_on h k client bound empty ≡ true
      → (client.poll s).0 ≡ some m
      → m.has_error ≡ false
      → iterate h k client (suc fuel) bound empty s
        ≡ after_read h k client
            (read_message h k m)
            (client.poll s).1
            (iterate h k client fuel bound 0 (client.poll s).1)
  unfolding iterate
  iterate_read fuel bound empty s m on got ok = rw on (rw got (rw ok refl))

module _ (h : Host) (k : Codec h) (client : Consumer h.Float) (b : Backlog client)
    (max_empty : ℕ) where
  iterate-Drained :
      (fuel n : ℕ) (s : client.S)
      → n ≤ max_empty
      → Drained h k client b max_empty fuel n s (iterate h k client fuel (some max_empty) n s)
  iterate-Drained zero n s within =
      unfold iterate accepted in ([], refl, omega arith, refl, refl, tt, tt)
  iterate-Drained (suc fuel) n s within =
      elim (Bool-cases (polls_on h k client (some max_empty) n)) [
        | inr over ↦
            rw (iterate_over h k client fuel (some max_empty) n s over)
              (over-Drained h k client b max_empty (suc fuel) n s over within)
        | inl on ↦
            let more : n < max_empty = unfold polls_on in ground (arith, on) in
            elim (Option-cases (client.poll s).0) [
              | inl idle ↦ rw (iterate_idle h k client fuel (some max_empty) n s on idle) (
                  Course-cons h k client b max_empty fuel n (suc n) s none [] _ _ _ idle more refl
                    refl refl
                    (iterate-Drained fuel (suc n) (client.poll s).1 (omega (arith, more))))
              | inr (m, got) ↦ elim (Bool-cases m.has_error) [
                | inl failed ↦
                    rw (iterate_failed h k client fuel (some max_empty) n s m on got failed) (
                      Course-cons h k client b max_empty fuel n n s (some m) [] _ _ _ got more
                        (rw failed refl) (rw failed refl) (rw failed refl)
                        (iterate-Drained fuel n (client.poll s).1 within))
                | inr ok ↦ rw (iterate_read h k client fuel (some max_empty) n s m on got ok) (
                    after_read-Drained h k client b max_empty fuel n s m (read_message h k m) _ got
                      more ok refl (iterate-Drained fuel 0 (client.poll s).1 (omega arith)))
              ]
            ]
      ]

module _ (h : Host) (k : Codec h) (client : Consumer h.Float) (b : Backlog client) where
  after_read_ends :
      (r : Read h) (s : client.S) (rest : Drain h k client)
      → rest.ending ≢ out_of_fuel
      → (after_read h k client r s rest).ending ≢ out_of_fuel
  unfolding after_read
  after_read_ends (event_read event) s rest ends = ends
  after_read_ends skipped s rest ends = ends
  after_read_ends unicode_error s rest ends = λ e. cc
  after_read_ends attribute_raised s rest ends = λ e. cc
  after_read_ends type_raised s rest ends = λ e. cc
  after_read_ends not_followed s rest ends = λ e. cc

  -- One message less is worth a whole round of empty polls.
  shorter :
      (max_empty : ℕ) (l : List (Message h.Float)) (m : Message h.Float)
      (l' : List (Message h.Float))
      → l ≡ m ∷ l'
      → length l * suc max_empty ≡ length l' * suc max_empty + suc max_empty
  shorter max_empty l m l' e = rw e (omega arith)

  pub iterate_ends :
      (fuel max_empty empty : ℕ) (s : client.S)
      → length (b.visible s) * suc max_empty + (max_empty - empty) < fuel
      → (iterate h k client fuel (some max_empty) empty s).ending ≢ out_of_fuel
  iterate_ends zero max_empty empty s small = absurd (omega arith)
  iterate_ends (suc fuel) max_empty empty s small =
      elim (Bool-cases (polls_on h k client (some max_empty) empty)) [
        | inr over ↦ rw (iterate_over h k client fuel (some max_empty) empty s over) (λ e. cc)
        | inl on ↦ elim (Option-cases (client.poll s).0) [
          | inl idle ↦ rw (iterate_idle h k client fuel (some max_empty) empty s on idle) (
              iterate_ends fuel max_empty (suc empty) (client.poll s).1
                (rw (b.poll_none s idle) (unfold polls_on in ground (arith, on, small))))
          | inr (m, got) ↦
              let less =
                shorter max_empty (b.visible s) m (b.visible (client.poll s).1)
                  (b.poll_some s m got) in
              elim (Bool-cases m.has_error) [
                | inl failed ↦
                    rw (iterate_failed h k client fuel (some max_empty) empty s m on got failed)
                      (iterate_ends fuel max_empty empty (client.poll s).1 (omega (arith, less)))
                | inr ok ↦ rw (iterate_read h k client fuel (some max_empty) empty s m on got ok) (
                    after_read_ends (read_message h k m) (client.poll s).1 _
                      (iterate_ends fuel max_empty 0 (client.poll s).1 (omega (arith, less))))
              ]
        ]
      ]

  -- A bounded source comes to an end within as many polls as the visible backlog and the bound allow.
  -- If it finishes, no message raised, and the empty polls since the last message without an error are
  -- as many as the bound, and were fewer at every poll; otherwise it is ended by what its last message
  -- raises, and none before it raised. The messages of its polls are the front of the backlog, and its events are those of
  -- these messages that have no error and parse, in their order.
  pub iterate_drains :
      (max_empty : ℕ) (s : client.S)
      → let polls = length (b.visible s) * suc max_empty + max_empty + 1 in
        let d = iterate h k client polls (some max_empty) 0 s in
        (d.ending ≢ out_of_fuel) × Drained h k client b max_empty polls 0 s d
  iterate_drains max_empty s = (
    iterate_ends _ max_empty 0 s (omega arith),
    iterate-Drained h k client b max_empty _ 0 s (omega arith),
  )
