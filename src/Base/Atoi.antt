-- ===== src/Base/Atoi.antt =====
-- `strconv.Atoi`, for an `int` of 64 bits, and that it reads what `strconv.Itoa` writes.
use Prim.Native.Char.{code}
use Prim.Native.Nat.{ℕ, zero, suc, ◌+◌, ◌-◌, ◌*◌, ◌/◌, ◌%◌, ◌^◌, ◌<◌}
use Prim.Native.String.{String, ◌++◌ as ◌<>◌}
use mathlib.Core.Path.{◌≡◌, refl, ap, subst, ◌∙◌}
use mathlib.Core.Logic.{◌≢◌, inl, inr}
use mathlib.Core.Bool.{◌&&◌}
use mathlib.Core.Option.{Option, none, some}
use native.Mathlib.Omega.{arith}
use text.Mathlib.TextLemmas.{nil-append, cons-append, cons-ne-nil}
use m_tlsling.Base.Tests.{ltb, leb, ◌==◌, if◌then◌else◌, Bool-cases, ltb→lt}
use m_tlsling.Base.Int.{ℤ, pos, negsuc}
use m_tlsling.Base.Text.{show_ℕ, show_int, decimal}

-- The number that the digits of a text add to those before them.
unfoldable pub digits : String → ℕ → Option ℕ
digits String.[] acc = some acc
digits (String.◌∷◌ c s) acc =
    let rest = digits s (acc * 10 + (code c - 48)) in
    if leb 48 (code c) && leb (code c) 57 then rest else none

abbrev minus : ℕ → ℤ
minus zero = pos 0
minus (suc n) = negsuc n

-- The number of a text that is not empty.
abbrev number : String → Option ℕ
number String.[] = none
number (String.◌∷◌ c s) = digits (String.◌∷◌ c s) 0

unfoldable pub positive : Option ℕ → Option ℤ
positive none = none
positive (some n) = if ltb n (2 ^ 63) then some (pos n) else none

unfoldable pub negative : Option ℕ → Option ℤ
negative none = none
negative (some n) = if leb n (2 ^ 63) then some (minus n) else none

-- `strconv.Atoi`; `none` is an error.
unfoldable pub atoi : String → Option ℤ
atoi String.[] = none
atoi (String.◌∷◌ c s) =
    if code c == 45
    then negative (number s)
    else if code c == 43
    then positive (number s)
    else positive (digits (String.◌∷◌ c s) 0)

digits-append :
    (s t : String) (acc : ℕ)
    → digits (s <> t) acc ≡ (elim (digits s acc) [ none ↦ none | some n ↦ digits t n ])
unfolding digits
digits-append String.[] t acc = rw (nil-append t) refl
digits-append (String.◌∷◌ c s) t acc =
    rw (cons-append c s t) (ground (arith, digits-append s t (acc * 10 + (code c - 48))))

-- The last digit of a number, behind the others.
digits-decimal : (n d : ℕ) → d < 10 → digits (decimal d) n ≡ some (n * 10 + d)
unfolding digits
digits-decimal n zero h = ap some (omega arith)
digits-decimal n (suc zero) h = ap some (omega arith)
digits-decimal n (suc (suc zero)) h = ap some (omega arith)
digits-decimal n (suc (suc (suc zero))) h = ap some (omega arith)
digits-decimal n (suc (suc (suc (suc zero)))) h = ap some (omega arith)
digits-decimal n (suc (suc (suc (suc (suc zero))))) h = ap some (omega arith)
digits-decimal n (suc (suc (suc (suc (suc (suc zero)))))) h = ap some (omega arith)
digits-decimal n (suc (suc (suc (suc (suc (suc (suc zero))))))) h = ap some (omega arith)
digits-decimal n (suc (suc (suc (suc (suc (suc (suc (suc zero)))))))) h = ap some (omega arith)
digits-decimal n (suc (suc (suc (suc (suc (suc (suc (suc (suc zero))))))))) h =
    ap some (omega arith)
digits-decimal n (suc (suc (suc (suc (suc (suc (suc (suc (suc (suc d)))))))))) h =
    absurd (omega arith)

decimal-ne-nil : (d : ℕ) → d < 10 → decimal d ≢ ""
decimal-ne-nil zero h = cons-ne-nil _ _
decimal-ne-nil (suc zero) h = cons-ne-nil _ _
decimal-ne-nil (suc (suc zero)) h = cons-ne-nil _ _
decimal-ne-nil (suc (suc (suc zero))) h = cons-ne-nil _ _
decimal-ne-nil (suc (suc (suc (suc zero)))) h = cons-ne-nil _ _
decimal-ne-nil (suc (suc (suc (suc (suc zero))))) h = cons-ne-nil _ _
decimal-ne-nil (suc (suc (suc (suc (suc (suc zero)))))) h = cons-ne-nil _ _
decimal-ne-nil (suc (suc (suc (suc (suc (suc (suc zero))))))) h = cons-ne-nil _ _
decimal-ne-nil (suc (suc (suc (suc (suc (suc (suc (suc zero)))))))) h = cons-ne-nil _ _
decimal-ne-nil (suc (suc (suc (suc (suc (suc (suc (suc (suc zero))))))))) h = cons-ne-nil _ _
decimal-ne-nil (suc (suc (suc (suc (suc (suc (suc (suc (suc (suc d)))))))))) h =
    absurd (omega arith)

append-ne-nil : (s t : String) → t ≢ "" → s <> t ≢ ""
append-ne-nil String.[] t h = rw (nil-append t) h
append-ne-nil (String.◌∷◌ c s) t h = rw (cons-append c s t) (cons-ne-nil c (s <> t))

-- A number has at most `fuel + 1` digits.
abbrev Fits : ℕ → ℕ → Type 0
Fits zero n = n < 10
Fits (suc fuel) n = Fits fuel (n / 10)

show_ℕ-ne-nil : (fuel n : ℕ) → show_ℕ fuel n ≢ ""
unfolding show_ℕ
show_ℕ-ne-nil zero n = decimal-ne-nil (n % 10) (omega arith)
show_ℕ-ne-nil (suc fuel) n = elim (Bool-cases (ltb n 10)) [
  | inl e ↦ rw e (decimal-ne-nil n (ltb→lt n 10 e))
  | inr e ↦ rw e (append-ne-nil _ _ (decimal-ne-nil (n % 10) (omega arith)))
]

digits-decimal_alone : (n : ℕ) → n < 10 → digits (decimal n) 0 ≡ some n
digits-decimal_alone n h = digits-decimal 0 n h ∙ ap some (omega arith)

less : (n : ℕ) → n < 10 → n ≡ n % 10
less n h = omega arith

digits-show_ℕ : (fuel n : ℕ) → Fits fuel n → digits (show_ℕ fuel n) 0 ≡ some n
unfolding show_ℕ
digits-show_ℕ zero n h =
    subst (λ d. digits (decimal d) 0 ≡ some n) (less n h) (digits-decimal_alone n h)
digits-show_ℕ (suc fuel) n h = elim (Bool-cases (ltb n 10)) [
  | inl e ↦ rw e (digits-decimal_alone n (ltb→lt n 10 e))
  | inr e ↦ rw e (
      digits-append (show_ℕ fuel (n / 10)) (decimal (n % 10)) 0
      ∙ rw (digits-show_ℕ fuel (n / 10) h)
          (digits-decimal (n / 10) (n % 10) (omega arith) ∙ ap some (omega arith)))
]

-- A text of digits has no sign.
atoi-digits : (s : String) (n : ℕ) → s ≢ "" → digits s 0 ≡ some n → atoi s ≡ positive (some n)
unfolding atoi digits
atoi-digits String.[] n h e = absurd (h refl)
atoi-digits (String.◌∷◌ c s) n h e = ground (arith, e)

-- `Atoi` reads what `Itoa` writes of a number that is not negative.
pub atoi-show_int : (n : ℕ) → n < 2 ^ 63 → atoi (show_int (pos n)) ≡ some (pos n)
unfolding show_int positive
atoi-show_int n h =
    atoi-digits (show_ℕ 20 n) n (show_ℕ-ne-nil 20 n) (digits-show_ℕ 20 n (omega arith))
    ∙ ground arith
