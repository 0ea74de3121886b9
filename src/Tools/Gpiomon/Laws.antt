-- ===== src/Tools/Gpiomon/Laws.antt =====
-- Which events gpiomon prints.
use libgpiod.Prelude.{
  ℕ, zero, suc, ◌+◌, ◌-◌, ◌≤◌, ◌<◌, ◌==◌, leb, min, ◌≡◌, ◌⊎◌, inl, inr, refl, ◌∙◌, ap, sym, Bool,
  false, not, ◌&&◌, if◌then◌else◌, some, List, [], ◌++◌, ok, arith, Bool-cases,
}
use mathlib.Core.List.{append_assoc, append-nil}
use libgpiod.EdgeEvent.{EdgeEvent, EventBuffer, get_event}
use libgpiod.Tools.Exit.{Run, going}
use libgpiod.Tools.Gpiomon.{Printed, print_events}

-- The texts of as many events from an index on.
abbrev pub texts : (EdgeEvent → List ℕ) → (ℕ → EdgeEvent) → ℕ → ℕ → List ℕ
texts print events index zero = []
texts print events index (suc count) = print (events index) ++ texts print events (suc index) count

-- How many of the events that are left are printed.
abbrev pub share : ℕ → ℕ → ℕ → ℕ
share wanted done left = if wanted == 0 then left else min left (wanted - done)

abbrev printed : List ℕ → ℕ → Bool → Run Printed
printed o d b = going (record { output = o; events_done = d; enough = b })

printed_eq :
    {o o' : List ℕ} {d d' : ℕ} {b b' : Bool}
    → o ≡ o'
    → d ≡ d'
    → b ≡ b'
    → printed o d b ≡ printed o' d' b'
printed_eq h k l = cc

abbrev next_printed : (EdgeEvent → List ℕ) → ℕ → EdgeEvent → Printed → Printed
next_printed print wanted event p = record {
  output = p.output ++ print event;
  events_done = suc p.events_done;
  enough = not (wanted == 0) && leb wanted (suc p.events_done);
}

print_events_step :
    (print : EdgeEvent → List ℕ) (wanted : ℕ) (buffer : EventBuffer) (index left : ℕ) (p : Printed)
    (event : EdgeEvent)
    → get_event buffer index ≡ ok (some (some event))
    → print_events print wanted buffer index (suc left) p ≡ (
        if not (wanted == 0) && leb wanted (suc p.events_done)
        then going (next_printed print wanted event p)
        else print_events print wanted buffer (suc index) left (next_printed print wanted event p))
unfolding print_events
print_events_step print wanted buffer index left p event g = rw (g, print_events) refl

-- Of the events in a buffer, those that are still wanted are printed, in order and once each: all
-- if no number was given, and no more than are missing to that number otherwise. The loop says that
-- it has enough exactly if the number is reached.
pub print_events_lem :
    (print : EdgeEvent → List ℕ) (wanted : ℕ) (buffer : EventBuffer) (events : ℕ → EdgeEvent)
    (index left : ℕ) (p : Printed)
    → ((j : ℕ) → index ≤ j → j < index + left → get_event buffer j ≡ ok (some (some (events j))))
    → (wanted ≡ 0) ⊎ (p.events_done < wanted)
    → p.enough ≡ false
    → print_events print wanted buffer index left p
      ≡ going (record {
        output = p.output ++ texts print events index (share wanted p.events_done left);
        events_done = p.events_done + share wanted p.events_done left;
        enough = not (wanted == 0) && leb wanted (p.events_done + left);
      })
unfolding print_events
print_events_lem print wanted buffer events index zero p g h e =
    let none : share wanted p.events_done 0 ≡ 0 = ground arith in
    rw none (printed_eq (sym (append-nil p.output)) (omega arith) (e ∙ ground arith))
print_events_lem print wanted buffer events index (suc left) p g h e =
    let p' : Printed = record (next_printed print wanted (events index) p) { enough = false } in
    print_events_step print wanted buffer index left p (events index)
      (g index (omega arith) (omega arith))
    ∙ elim (Bool-cases (not (wanted == 0) && leb wanted (suc p.events_done))) [
      | inl f ↦
          let one : share wanted p.events_done (suc left) ≡ 1 = ground arith in
          rw (f, one)
            (printed_eq (ap (λ t. p.output ++ t) (sym (append-nil (print (events index)))))
              (omega arith) (ground arith))
      | inr f ↦
          let more : share wanted p.events_done (suc left)
              ≡ suc (share wanted (suc p.events_done) left) =
            ground arith in
          rw (f, more)
            (print_events_lem print wanted buffer events (suc index) left p'
                (λ j l u. g j (omega arith) (omega arith)) (ground arith) refl
              ∙ printed_eq
                  (append_assoc p.output (print (events index))
                    (texts print events (suc index) (share wanted (suc p.events_done) left)))
                  (omega arith) (ground arith))
    ]
