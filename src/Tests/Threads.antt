-- ===== src/Tests/Threads.antt =====
-- The theorem on the queue between two threads, applied to an interleaving in which each thread is
-- stopped between its loads and its store.
use neu_stack.Common.{ℕ, ◌+◌, ◌≤◌, ◌≡◌, refl, List, [], ◌∷◌, length, take, arith}
use neu_stack.SpscQueue.{Event, push_event, pop_event, push_from, pop_from, run, empty_queue}
use neu_stack.SpscQueue.Fifo.{run-fifo}

abbrev interleaving : List (Event ℕ)
interleaving =
    push_event 5
    ∷ pop_event
    ∷ push_event 5
    ∷ pop_event
    ∷ push_event 5
    ∷ push_event 6
    ∷ pop_event
    ∷ push_event 6
    ∷ pop_event
    ∷ push_event 6
    ∷ pop_event
    ∷ push_event 7
    ∷ pop_event
    ∷ push_event 7
    ∷ []

-- Both threads have got somewhere.
one_popped : (run 2 interleaving (empty_queue (λ i. 0))).popped ≡ 5 ∷ []
unfolding run push_from pop_from
one_popped = refl

run-fifo_example :
    let q = run 2 interleaving (empty_queue (λ i. 0)) in
    (q.popped ≡ take (length q.popped) q.pushed)
    × (length q.popped ≤ length q.pushed)
    × (length q.pushed ≤ length q.popped + 2)
run-fifo_example =
    run-fifo 2 9_223_372_036_854_775_808 (λ i. 0) interleaving (omega arith) (omega arith)
