-- ===== src/Prelude/Panic.antt =====
-- Kernel code that may call `panic`, which does not return, and unsigned 32-bit words.
use Prim.Native.Nat.{ℕ, ◌+◌, ◌-◌, ◌%◌, ◌^◌}
use Prim.Native.String.{String}
use mathlib.Core.Path.{◌≡◌, refl}
use mathlib.Core.Bool.{Bool, true, false}

-- `panic s` is the C call `panic(s)`.
pub data Outcome {ℓ} (R : Type ℓ) : Type ℓ where
  ok : R → Outcome R
  panic : String → Outcome R

-- The code that follows a call, run with the call's result.
abbrev pub and_then {ℓ κ} : {R : Type ℓ} {S : Type κ} → (R → Outcome S) → Outcome R → Outcome S
and_then code (ok r) = code r
and_then code (panic message) = panic message

infixl 5 ◌>>=◌ ◌>>◌
abbrev pub ◌>>=◌ {ℓ κ} : {R : Type ℓ} {S : Type κ} → Outcome R → (R → Outcome S) → Outcome S
call >>= code = and_then code call

abbrev pub ◌>>◌ {ℓ} : {S : Type ℓ} → Outcome (Unit {0}) → Outcome S → Outcome S
call >> code = and_then (λ (_ : Unit {0}). code) call

-- `if(!test) panic(message);`
abbrev pub ensure : Bool → String → Outcome (Unit {0})
ensure false message = panic message
ensure true message = ok tt

-- A chain that returns: its first part returned, and so did the rest.
pub and_then-ok {ℓ κ} :
    {R : Type ℓ} {S : Type κ} (call : Outcome R) (code : R → Outcome S) {s : S}
    → and_then code call ≡ ok s
    → (r : R) × (call ≡ ok r) × (code r ≡ ok s)
and_then-ok (ok r) code returns = (r, refl, returns)
and_then-ok (panic message) code returns = cc

pub ok-injective {ℓ} : {R : Type ℓ} {r s : R} → ok r ≡ ok s → r ≡ s
ok-injective e = cc

-- `uint`
abbrev pub u32_mod : ℕ
u32_mod = 2 ^ 32

abbrev pub add32 : ℕ → ℕ → ℕ
add32 a b = (a + b) % u32_mod

abbrev pub sub32 : ℕ → ℕ → ℕ
sub32 a b = (a + u32_mod - b) % u32_mod
