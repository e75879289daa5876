-- ===== src/Tests/Samples.antt =====
-- The theorem on the ring of samples, applied to calls that overwrite the oldest sample.
use neu_stack.Common.{ℕ, ◌-◌, ◌≡◌, refl, List, [], ◌∷◌, min, length, drop, get_or, arith}
use neu_stack.MetricsBuffer.{
  Call, push_call, clear_call, empty_metrics, push, latest, read_slots, recent, count, clear,
  run_calls,
}
use neu_stack.MetricsBuffer.Recent.{samples_after, recent-samples}

abbrev samples : List (Call ℕ)
samples = push_call 4 ∷ clear_call ∷ push_call 5 ∷ push_call 6 ∷ push_call 7 ∷ []

-- Two slots, three samples since the clear.
two_recent : recent 2 3 (run_calls 2 samples (empty_metrics (λ i. 0))) ≡ 6 ∷ 7 ∷ []
unfolding run_calls push clear recent read_slots
two_recent = refl

recent-samples_example :
    let xs = samples_after samples [] in
    let b = run_calls 2 samples (empty_metrics (λ i. 0)) in
    (recent 2 3 b ≡ drop (length xs - min 3 2) xs)
    × (latest 2 0 b ≡ get_or xs (length xs - 1) 0)
    × (count 2 b ≡ min (length xs) 2)
recent-samples_example = recent-samples 2 (λ i. 0) samples 3 0 (omega arith) (omega arith)
