-- ===== src/ReceiverClock/Samples.antt =====
-- Test data: the clock over whole numbers in place of doubles.
use mi_ster_cast.Prelude.{suc, ◌+◌, ◌/◌, ◌≡◌, refl, ap, ◌∙◌, arith}
use mi_ster_cast.Prelude.Int.{ℤ, pos, negsuc, ◌+ℤ◌, ◌-ℤ◌, ◌*ℤ◌, ltb_ℤ, pos_part, neg_part}
use mi_ster_cast.ReceiverClock.{Doubles, Clock, reset_clock}
use mi_ster_cast.ReceiverClock.Due.{IsExact}

abbrev quotient : ℤ → ℤ → ℤ
quotient (pos n) b = pos (n / pos_part b)
quotient (negsuc n) b = pos 0 -ℤ pos (suc n / pos_part b)

abbrev pub whole : Doubles ℤ
whole = record {
  of_int = λ i. i;
  add = λ a b. a +ℤ b;
  sub = λ a b. a -ℤ b;
  mul = λ a b. a *ℤ b;
  div = quotient;
  abs = λ a. pos (pos_part a + neg_part a);
  greater = λ a b. ltb_ℤ b a;
  llround = λ a. a;
}

add-zero : (d : ℤ) → d +ℤ pos 0 ≡ d
unfolding ◌+ℤ◌
add-zero d = ground arith

zero-mul : (d : ℤ) → pos 0 *ℤ d ≡ pos 0
unfolding ◌*ℤ◌
zero-mul d = ground arith

pub whole-IsExact : IsExact whole
whole-IsExact = record {
  round_int = λ n small. refl;
  no_time = λ d rate. ap (λ x. d +ℤ quotient x (pos 10000000)) (zero-mul (pos rate)) ∙ add-zero d;
}

-- 48 kHz, 40 ms of buffer and fields of 16 ms, from field 5 on.
abbrev pub clock : Clock ℤ
clock = reset_clock whole 48000 40 (pos 16) 5 (pos 0)
