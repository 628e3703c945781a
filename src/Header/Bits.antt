-- ===== src/Header/Bits.antt =====
-- The masks of header.go as arithmetic; each is a table over one byte, checked by evaluation.
use Prim.Native.Nat.{bit_and, bit_or}
use mathlib.Core.Logic.{ite}
use native.Mathlib.Decide.{ℕ_discrete}
use myflowhub_core.Common.{ℕ, zero, suc, ◌*◌, ◌/◌, ◌%◌, ◌<◌, ◌≡◌, refl, Bool, true, false, arith}

module _ (f g : ℕ → ℕ) where
  agree_below : ℕ → Bool
  unfolding ℕ_discrete
  agree_below zero = true
  agree_below (suc n) = ite (ℕ_discrete (f n) (g n)) (agree_below n) false

  agree_below→eq : (n : ℕ) → agree_below n ≡ true → (i : ℕ) → i < n → f i ≡ g i
  unfolding agree_below
  agree_below→eq zero e i h = absurd (omega arith)
  agree_below→eq (suc n) e i h = ground (arith, agree_below→eq n (ground arith) i)

pub low_two : (b : ℕ) → b < 256 → bit_and b 0x03 ≡ b % 4
unfolding agree_below
low_two = agree_below→eq _ _ 256 refl

pub low_six : (b : ℕ) → b < 256 → bit_and b 0x3f ≡ b % 64
unfolding agree_below
low_six = agree_below→eq _ _ 256 refl

pub high_six : (b : ℕ) → b < 256 → bit_and b 0xfc ≡ b / 4 * 4
unfolding agree_below
high_six = agree_below→eq _ _ 256 refl

pub join_high_low : (b : ℕ) → b < 256 → bit_or (b / 4 * 4) (b % 4) ≡ b
unfolding agree_below
join_high_low = agree_below→eq _ _ 256 refl

pub join_low_high : (b : ℕ) → b < 256 → bit_or (b % 4) (b / 4 * 4) ≡ b
unfolding agree_below
join_low_high = agree_below→eq _ _ 256 refl
