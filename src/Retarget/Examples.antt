-- ===== src/Retarget/Examples.antt =====
-- Runs of the retarget, as in retarget_test.cpp.
use pi_secure.Prelude.{pos, ◌≡◌, refl}
use pi_secure.Retarget.{floor_loop, round_log2, retarget_difficulty_bits}
use pi_secure.Prelude.{◌≤◌, ◌+◌, arith}
use pi_secure.Retarget.{clamp_bits}
use pi_secure.Retarget.Log2.{IsNearestLog2, round_log2-IsNearestLog2}
use pi_secure.Retarget.Bounds.{retarget_step, retarget_antitone}

fast_blocks : retarget_difficulty_bits 4 (pos 36) ≡ 6
unfolding retarget_difficulty_bits round_log2 floor_loop
fast_blocks = refl

slow_blocks : retarget_difficulty_bits 2 (pos 900000) ≡ 2
unfolding retarget_difficulty_bits round_log2 floor_loop
slow_blocks = refl

round_log2-IsNearestLog2_example : IsNearestLog2 1000 (round_log2 1000)
round_log2-IsNearestLog2_example = round_log2-IsNearestLog2 1000 (omega arith) (omega arith)

by_two_at_most :
    (retarget_difficulty_bits 7 (pos 9) ≤ clamp_bits 7 + 2)
    × (clamp_bits 7 ≤ retarget_difficulty_bits 7 (pos 9) + 2)
by_two_at_most = retarget_step 7 (pos 9)

longer_span : retarget_difficulty_bits 7 (pos 700) ≤ retarget_difficulty_bits 7 (pos 300)
longer_span = retarget_antitone 7 300 700 (omega arith) (omega arith)
