-- ===== src/Base/Text.antt =====
-- JavaScript strings as sequences of code units, and the decimal form of a number.
use Prim.Native.Nat.{ℕ, zero, suc, ◌+◌, ◌-◌, ◌*◌, ◌<◌, ◌/◌, ◌%◌}
use Prim.Native.Char.{code}
use Prim.Native.String.{String}
use mathlib.Core.Path.{◌≡◌, refl, ap, ◌∙◌, sym}
use mathlib.Core.Logic.{◌↔◌, ◌≢◌, inl, inr}
use mathlib.Core.Bool.{Bool, true, false, ◌&&◌}
use mathlib.Core.Option.{Option, none, some}
use mathlib.Core.List.{List, [], ◌∷◌, ◌++◌}
use native.Mathlib.Omega.{arith}
use native.Mathlib.Decide.{dec_lt}
use eventfabric.Base.Lists.{All, All-append}
use eventfabric.Base.Tests.{Bool-cases, ◌==◌, ltb, if◌then◌else◌}

abbrev pub Str : Type 0
Str = List ℕ

-- A literal of the source as its code units.
abbrev pub codes : String → Str
codes String.[] = []
codes (String.◌∷◌ c s) = code c ∷ codes s

-- `===` on strings.
unfoldable pub str_eq : Str → Str → Bool
str_eq [] [] = true
str_eq (a ∷ s) (b ∷ t) = (a == b) && str_eq s t
str_eq _ _ = false

pub str_eq_refl : (s : Str) → str_eq s s ≡ true
unfolding str_eq
str_eq_refl [] = refl
str_eq_refl (a ∷ s) = ground (arith, str_eq_refl s)

pub str_eq→eq : (s t : Str) → str_eq s t ≡ true → s ≡ t
unfolding str_eq
str_eq→eq [] [] h = refl
str_eq→eq [] (b ∷ t) h = cc
str_eq→eq (a ∷ s) [] h = cc
str_eq→eq (a ∷ s) (b ∷ t) h = ground (arith, str_eq→eq s t)

pub str_eq_iff : (s t : Str) → (str_eq s t ≡ true) ↔ (s ≡ t)
str_eq_iff s t = (str_eq→eq s t, λ e. subst_eq s t e)
  where
    subst_eq : (s t : Str) → s ≡ t → str_eq s t ≡ true
    subst_eq s t e = rw (← e) (str_eq_refl s)

pub str_eq_ne : (s t : Str) → s ≢ t → str_eq s t ≡ false
str_eq_ne s t h = ground (arith, str_eq→eq s t)

-- `a.includes(s)` on an array of strings.
unfoldable pub includes : List Str → Str → Bool
includes [] s = false
includes (x ∷ xs) s = if str_eq x s then true else includes xs s

-- The decimal digits of `n`, the last digit split off first; the fuel bounds the digits.
digits_from : ℕ → ℕ → Str
digits_from zero n = []
digits_from (suc f) n =
    let rest = digits_from f (n / 10) ++ (48 + n % 10) ∷ [] in
    if ltb n 10 then (48 + n) ∷ [] else rest

-- `String(n)` for a counter.
unfoldable pub decimal : ℕ → Str
unfolding digits_from
decimal n = digits_from (suc n) n

-- Reads decimal digits from the left, after a number that is read already.
read_decimal : ℕ → Str → ℕ
read_decimal acc [] = acc
read_decimal acc (c ∷ s) = read_decimal (acc * 10 + (c - 48)) s

read_decimal-append :
    (acc : ℕ) (s t : Str) → read_decimal acc (s ++ t) ≡ read_decimal (read_decimal acc s) t
unfolding read_decimal
read_decimal-append acc [] t = refl
read_decimal-append acc (c ∷ s) t = read_decimal-append (acc * 10 + (c - 48)) s t

read_decimal-digits_from : (f n : ℕ) → n < f → read_decimal 0 (digits_from f n) ≡ n
unfolding digits_from read_decimal
read_decimal-digits_from zero n h = elim h [ ]
read_decimal-digits_from (suc f) n h = elim (dec_lt n 10) [
  | yes p ↦ ground arith
  | no p ↦
      let last : read_decimal (n / 10) ((48 + n % 10) ∷ []) ≡ n = omega arith in
      ground (
        arith,
        read_decimal-append 0 (digits_from f (n / 10)) ((48 + n % 10) ∷ []),
        read_decimal-digits_from f (n / 10),
        last,
      )
]

-- Reading back what `String(n)` prints gives `n`, so two counters never print alike.
read_decimal-decimal : (n : ℕ) → read_decimal 0 (decimal n) ≡ n
unfolding decimal
read_decimal-decimal n = read_decimal-digits_from (suc n) n (omega arith)

pub decimal-injective : (m n : ℕ) → decimal m ≡ decimal n → m ≡ n
decimal-injective m n e =
    sym (read_decimal-decimal m) ∙ (ap (read_decimal 0) e ∙ read_decimal-decimal n)

-- No colon among the characters.
abbrev pub IsColonFree : Str → Type 0
IsColonFree = All (λ c. c ≢ 58)

digits_from-IsColonFree : (f n : ℕ) → IsColonFree (digits_from f n)
unfolding digits_from
digits_from-IsColonFree zero n = tt
digits_from-IsColonFree (suc f) n = elim (Bool-cases (ltb n 10)) [
  | inl t ↦
      let below : ltb n 10 ≡ true → n < 10 = λ e. ground arith in
      let small : n < 10 = below t in rw t ((omega arith, tt))
  | inr e ↦ rw e (
      All-append (λ c. c ≢ 58) (digits_from f (n / 10)) ((48 + n % 10) ∷ [])
        (digits_from-IsColonFree f (n / 10)) (omega arith, tt))
]

pub decimal-IsColonFree : (n : ℕ) → IsColonFree (decimal n)
unfolding decimal
decimal-IsColonFree n = digits_from-IsColonFree (suc n) n

-- `tenantId !== undefined` adds `tenant_id = ...` to a condition.
abbrev pub of_tenant : Option Str → Str → Bool
of_tenant none t = true
of_tenant (some tenant) t = str_eq t tenant
