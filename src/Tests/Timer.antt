-- ===== src/Tests/Timer.antt =====
-- The theorem on the timers of a connection, applied.
use neu_stack.Common.{ℕ, ◌≡◌, refl, List, [], ◌∷◌, arith}
use neu_stack.Tcp.{closed}
use neu_stack.Tcp.Unanswered.{check_at, check_all, IsRetried, check_all-IsRetried}
use neu_stack.Tests.{echo_env, three_bytes, flying, entry}

-- A head that has been sent again twice is sent again three times more.
abbrev three_times : List ℕ
three_times = 200 ∷ 60_000_200 ∷ 130_000_000 ∷ []

check_all-IsRetried_example :
    IsRetried 3 (entry 1000 three_bytes 2) (flying 2) (check_all echo_env three_times (flying 2))
    × ((check_at echo_env 200_000_000 (check_all echo_env three_times (flying 2))).tcb.state
        ≡ closed)
check_all-IsRetried_example =
    check_all-IsRetried echo_env 100 200_000_000 three_times (entry 1000 three_bytes 2)
      (entry 1003 three_bytes 0 ∷ []) (flying 2) refl (omega arith) (omega arith) refl (omega arith)
      (omega arith, (omega arith, (omega arith, tt))) (omega arith) (omega arith) refl
