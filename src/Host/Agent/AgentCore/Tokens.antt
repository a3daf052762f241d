-- ===== src/Host/Agent/AgentCore/Tokens.antt =====
-- The comparison of tokens in src/host/agent/agent_core.cpp.
use Prim.Native.Nat.{max, differ, digits, bit_or, bit_xor, bit_or-bitwise, bit_xor-bitwise}
use open_image_debugger.Prelude.{
  subst, ℕ, zero, suc, ◌/◌, ◌%◌, ◌≤◌, ◌≡◌, refl, sym, ap, ◌↔◌, inl, inr, true, [], ◌∷◌, ◌==◌,
  length, Str, arith, Bool-cases, ==_iff,
}
use open_image_debugger.Host.Agent.AgentCore.{constant_time_equal, accumulate, byte_or_zero, tail}

differ_zero : (a b : ℕ) → (differ a b ≡ 0) ↔ (a ≡ b)
differ_zero zero b = omega arith
differ_zero (suc a) zero = omega arith
differ_zero (suc a) (suc b) = ground (arith, differ_zero a b)

xor_digits : (n a b : ℕ) → a ≤ n → (digits (λ b. b) differ n a b ≡ 0) ↔ (a ≡ b)
xor_digits zero a b h = omega arith
xor_digits (suc n) zero b h = omega arith
xor_digits (suc n) (suc a) b h =
    ground (arith, xor_digits n (suc a / 2) (b / 2) (omega arith), differ_zero (suc a % 2) (b % 2))

or_digits : (n a b : ℕ) → a ≤ n → (digits (λ b. b) max n a b ≡ 0) ↔ ((a ≡ 0) × (b ≡ 0))
or_digits zero a b h = omega arith
or_digits (suc n) zero b h = omega arith
or_digits (suc n) (suc a) b h = ground (arith, or_digits n (suc a / 2) (b / 2) (omega arith))

xor_zero : (a b : ℕ) → (bit_xor a b ≡ 0) ↔ (a ≡ b)
xor_zero a b =
    subst (λ x. (x ≡ 0) ↔ (a ≡ b)) (sym (bit_xor-bitwise a b)) (xor_digits a a b (omega arith))

or_zero : (a b : ℕ) → (bit_or a b ≡ 0) ↔ ((a ≡ 0) × (b ≡ 0))
or_zero a b =
    subst (λ x. (x ≡ 0) ↔ ((a ≡ 0) × (b ≡ 0))) (sym (bit_or-bitwise a b))
      (or_digits a a b (omega arith))

-- Once a difference has been seen it stays.
pub accumulate_zero :
    (rounds : ℕ) (a b : Str) (diff : ℕ)
    → length a ≡ length b
    → length a ≤ rounds
    → (accumulate rounds a b diff ≡ 0) ↔ ((diff ≡ 0) × (a ≡ b))
unfolding accumulate byte_or_zero tail
accumulate_zero zero [] [] diff same h = ground arith
accumulate_zero zero [] (y ∷ b) diff same h = absurd (omega arith)
accumulate_zero zero (x ∷ a) b diff same h = absurd (omega arith)
accumulate_zero (suc n) [] [] diff same h =
    ground (arith, accumulate_zero n [] [] (bit_or diff 0) refl (omega arith), or_zero diff 0)
accumulate_zero (suc n) (x ∷ a) [] diff same h = absurd (omega arith)
accumulate_zero (suc n) [] (x ∷ a) diff same h = absurd (omega arith)
accumulate_zero (suc n) (x ∷ a) (y ∷ b) diff same h = ground (
  arith,
  accumulate_zero n a b (bit_or diff (bit_xor x y)) (omega arith) (omega arith),
  xor_zero x y,
  or_zero diff (bit_xor x y),
)

accumulate_nonzero :
    (rounds : ℕ) (a b : Str) (diff : ℕ) → (accumulate rounds a b diff ≡ 0) → diff ≡ 0
unfolding accumulate
accumulate_nonzero zero a b diff h = h
accumulate_nonzero (suc n) a b diff h = ground (
  arith,
  or_zero diff (bit_xor (byte_or_zero a) (byte_or_zero b)),
  accumulate_nonzero n (tail a) (tail b) (bit_or diff (bit_xor (byte_or_zero a) (byte_or_zero b)))
      h,
)

pub constant_time_equal_iff : (a b : Str) → (constant_time_equal a b ≡ true) ↔ (a ≡ b)
unfolding constant_time_equal
constant_time_equal_iff a b = elim (Bool-cases (length a == length b)) [
  | inl same ↦ rw same (
      ground (
        arith,
        ==_iff (length a) (length b),
        accumulate_zero (max (length a) (length b)) a b 0
            (omega (arith, (==_iff (length a) (length b)).0 same)) (omega arith),
      ))
  | inr other ↦ (
    (λ h. absurd (
        omega (
          arith,
          accumulate_nonzero (max (length a) (length b)) a b 1 ((==_iff _ 0).0 (rw other at h)),
        ))),
    λ same. absurd (ground (arith, ap (λ x. length x) same, other)),
  )
]
