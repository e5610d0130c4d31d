-- ===== src/Loop/Batches.antt =====
-- src/thread.c: which of the events that one epoll_wait reports are handled.
use ixmap.Base.{
  ℕ, zero, suc, ◌+◌, ◌≤◌, ◌≡◌, refl, sym, ap, subst, ◌∙◌, List, [], ◌∷◌, ◌++◌, append_assoc,
  append-nil, true, false, none, some, arith, length, get_elem?,
}
use ixmap.Netlink.{Control}
use ixmap.Loop.{
  Event, epoll_irq_rx, epoll_irq_tx, epoll_tun, epoll_signal, epoll_netlink, Reads, Batch, running,
  blocked, failed, crashed, returned, finished, Handled, stop, went, with_read, on_event,
  after_event, events_loop,
}

-- The events in order, up to the first one that runs a loop over the ports.
pub first_busy : ℕ → List Event → Control → Reads → Batch
first_busy num_ports [] control reads = finished control reads
first_busy num_ports (event ∷ events) control reads =
    elim (on_event num_ports event control reads) [
      | stop batch ↦ batch
      | went true control' reads' ↦ finished control' reads'
      | went false control' reads' ↦ first_busy num_ports events control' reads'
    ]

get_elem?-behind {ℓ} : {A : Type ℓ} (xs : List A) (i : ℕ) → length xs ≤ i → get_elem? xs i ≡ none
get_elem?-behind [] i h = refl
get_elem?-behind (x ∷ xs) zero h = absurd (omega arith)
get_elem?-behind (x ∷ xs) (suc i) h = get_elem?-behind xs i (omega arith)

get_elem?-append {ℓ} :
    {A : Type ℓ} (before : List A) (x : A) (xs : List A)
    → get_elem? (before ++ x ∷ xs) (length before) ≡ some x
get_elem?-append [] x xs = refl
get_elem?-append (y ∷ before) x xs = get_elem?-append before x xs

length-append_one {ℓ} : {A : Type ℓ} (xs : List A) (x : A) → length (xs ++ x ∷ []) ≡ length xs + 1
length-append_one [] x = refl
length-append_one (y ∷ xs) x = omega (arith, length-append_one xs x)

module _ (num_ports : ℕ) where
  -- From behind the last event the batch is finished.
  events_loop-behind :
      (fuel : ℕ) (events : List Event) (i : ℕ) (control : Control) (reads : Reads)
      → length events ≤ i
      → events_loop num_ports (suc fuel) events i control reads ≡ finished control reads
  unfolding events_loop
  events_loop-behind fuel events i control reads h =
      rw (events_loop, get_elem?-behind events i h) refl

  events_loop-at :
      (fuel : ℕ) (events : List Event) (i : ℕ) (event : Event) (control : Control) (reads : Reads)
      → get_elem? events i ≡ some event
      → events_loop num_ports (suc fuel) events i control reads
        ≡ after_event
            (events_loop num_ports fuel events)
            num_ports
            i
            (on_event num_ports event control reads)
  unfolding events_loop
  events_loop-at fuel events i event control reads e = rw (events_loop, e) refl

  -- What follows an event, if what follows the ones that run no loop is known.
  after_event_lem :
      (go_on : ℕ → Control → Reads → Batch) (i : ℕ) (rest : Control → Reads → Batch)
      (handled : Handled)
      → ((control : Control) (reads : Reads)
          → go_on (num_ports + 1) control reads ≡ finished control reads)
      → ((control : Control) (reads : Reads) → go_on (i + 1) control reads ≡ rest control reads)
      → after_event go_on num_ports i handled ≡ elim handled [
        | stop batch ↦ batch
        | went true control' reads' ↦ finished control' reads'
        | went false control' reads' ↦ rest control' reads'
      ]
  unfolding after_event
  after_event_lem go_on i rest (stop batch) ends same = refl
  after_event_lem go_on i rest (went true control reads) ends same = ends control reads
  after_event_lem go_on i rest (went false control reads) ends same = same control reads

  -- The events behind `before`, as the loop over all of them handles them.
  loop-first_busy :
      (before events : List Event) (control : Control) (reads : Reads)
      → length (before ++ events) ≤ num_ports + 1
      → events_loop num_ports (suc (length events)) (before ++ events) (length before) control reads
        ≡ first_busy num_ports events control reads
  unfolding first_busy
  loop-first_busy before [] control reads h =
      events_loop-behind 0 (before ++ []) (length before) control reads
        (omega (arith, ap length (append-nil before)))
  loop-first_busy before (event ∷ events) control reads h =
      let all = before ++ event ∷ events in
      let longer : (before ++ event ∷ []) ++ events ≡ all =
        append_assoc before (event ∷ []) events in
      events_loop-at (suc (length events)) all (length before) event control reads
        (get_elem?-append before event events)
      ∙ after_event_lem (events_loop num_ports (suc (length events)) all) (length before)
          (first_busy num_ports events) (on_event num_ports event control reads)
          (λ c r. events_loop-behind (length events) all (num_ports + 1) c r h)
          (λ c r.
            ap (λ i. events_loop num_ports (suc (length events)) all i c r)
              (sym (length-append_one before event))
            ∙ ap
                (λ l.
                  events_loop num_ports (suc (length events)) l (length (before ++ event ∷ [])) c r)
                (sym longer)
            ∙ loop-first_busy (before ++ event ∷ []) events c r (omega (arith, ap length longer)))

-- If an epoll_wait reports at most one event more than there are ports, the loop over them ends: it
-- handles them in order up to the first interrupt or tun event, and passes over those behind it.
pub events_loop-first_busy :
    (num_ports : ℕ) (events : List Event) (control : Control) (reads : Reads)
    → length events ≤ num_ports + 1
    → events_loop num_ports (suc (length events)) events 0 control reads
      ≡ first_busy num_ports events control reads
events_loop-first_busy num_ports events = loop-first_busy num_ports [] events

-- The events whose handling runs a loop over the ports.
abbrev pub IsBusy : Event → Type 0
IsBusy (epoll_irq_rx port qmask) = Unit
IsBusy (epoll_irq_tx port qmask) = Unit
IsBusy (epoll_tun port) = Unit
IsBusy epoll_signal = ⊥
IsBusy epoll_netlink = ⊥

-- The batch ends, and epoll_wait is called again.
abbrev pub IsFinished : Batch → Type 0
IsFinished running = ⊥
IsFinished blocked = ⊥
IsFinished failed = ⊥
IsFinished crashed = ⊥
IsFinished (returned control) = ⊥
IsFinished (finished control reads) = Unit

-- A busy event goes on at the index `num_ports + 1`, or not at all.
busy-after :
    (num_ports : ℕ) (event : Event) (control : Control) (reads : Reads)
    (go_on : ℕ → Control → Reads → Batch) (i : ℕ)
    → IsBusy event
    → ((c : Control) (r : Reads) → ¬ IsFinished (go_on (num_ports + 1) c r))
    → ¬ IsFinished (after_event go_on num_ports i (on_event num_ports event control reads))
unfolding after_event on_event with_read
busy-after num_ports (epoll_irq_rx port qmask) control [] go_on i busy never = λ f. f
busy-after num_ports (epoll_irq_rx port qmask) control (none ∷ reads) go_on i busy never = λ f. f
busy-after num_ports (epoll_irq_rx port qmask) control (some b ∷ reads) go_on i busy never =
    never _ _
busy-after num_ports (epoll_irq_tx port qmask) control [] go_on i busy never = λ f. f
busy-after num_ports (epoll_irq_tx port qmask) control (none ∷ reads) go_on i busy never = λ f. f
busy-after num_ports (epoll_irq_tx port qmask) control (some b ∷ reads) go_on i busy never =
    never _ _
busy-after num_ports (epoll_tun port) control [] go_on i busy never = λ f. f
busy-after num_ports (epoll_tun port) control (none ∷ reads) go_on i busy never = λ f. f
busy-after num_ports (epoll_tun port) control (some b ∷ reads) go_on i busy never = never _ _
busy-after num_ports epoll_signal control reads go_on i busy never = absurd busy
busy-after num_ports epoll_netlink control reads go_on i busy never = absurd busy

busy_again :
    (num_ports fuel : ℕ) (events : List Event) (event : Event) (control : Control) (reads : Reads)
    → get_elem? events (num_ports + 1) ≡ some event
    → IsBusy event
    → ¬ IsFinished (events_loop num_ports fuel events (num_ports + 1) control reads)
unfolding events_loop
busy_again num_ports zero events event control reads e busy = λ f. f
busy_again num_ports (suc fuel) events event control reads e busy =
    subst (λ b. ¬ IsFinished b)
      (sym (events_loop-at num_ports fuel events (num_ports + 1) event control reads e))
      (busy-after num_ports event control reads (events_loop num_ports fuel events) (num_ports + 1)
        busy λ c r. busy_again num_ports fuel events event c r e busy)

-- If the first event and the one at index `num_ports + 1` are interrupts or tun events, the loop
-- never gets through: however long it runs, epoll_wait is not called again, since each handling of
-- the second sets the index back to it.
pub events_loop-IsFinished :
    (num_ports fuel : ℕ) (events : List Event) (first event : Event) (control : Control)
    (reads : Reads)
    → get_elem? events 0 ≡ some first
    → IsBusy first
    → get_elem? events (num_ports + 1) ≡ some event
    → IsBusy event
    → ¬ IsFinished (events_loop num_ports fuel events 0 control reads)
unfolding events_loop
events_loop-IsFinished num_ports zero events first event control reads e busy e' busy' = λ f. f
events_loop-IsFinished num_ports (suc fuel) events first event control reads e busy e' busy' =
    subst (λ b. ¬ IsFinished b) (sym (events_loop-at num_ports fuel events 0 first control reads e))
      (busy-after num_ports first control reads (events_loop num_ports fuel events) 0 busy
        λ c r. busy_again num_ports fuel events event c r e' busy')
