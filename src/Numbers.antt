-- ===== src/Numbers.antt =====
-- strconv.Atoi and strconv.Itoa as the program uses them, at 64 bits.
use a2abridge.Prelude.{
  ltb, leb, ◌==◌, if◌then◌else◌, ltb→lt, Bool-cases, ℤ, pos, negsuc, Text, ℕ, zero, suc, ◌+◌, ◌-◌,
  ◌*◌, ◌/◌, ◌%◌, ◌^◌, ◌≤◌, ◌<◌, ◌≡◌, refl, sym, ap, ◌∙◌, inl, inr, Bool, true, ◌&&◌, Option, none,
  some, [], ◌∷◌, ◌++◌, arith,
}

abbrev pub is_digit : ℕ → Bool
is_digit c = leb b'0' c && leb c b'9'

-- The value of the decimal digits behind those that made `acc`; none at another byte.
unfoldable pub digits_value : ℕ → Text → Option ℕ
digits_value acc [] = some acc
digits_value acc (c ∷ s) =
    let rest = digits_value (acc * 10 + (c - b'0')) s in if is_digit c then rest else none

-- A magnitude of at least one digit that is not over a bound.
unfoldable pub magnitude : ℕ → Text → Option ℕ
unfolding digits_value
magnitude bound [] = none
magnitude bound (c ∷ s) = elim (digits_value 0 (c ∷ s)) [
  | none ↦ none
  | some n ↦ if leb n bound then some n else none
]

abbrev pub map_some {ℓ κ} : {A : Type ℓ} {B : Type κ} → (A → B) → Option A → Option B
map_some f none = none
map_some f (some a) = some (f a)

-- minus a natural number
abbrev pub negate : ℕ → ℤ
negate zero = pos 0
negate (suc n) = negsuc n

abbrev pub max_int64 : ℕ
max_int64 = 2 ^ 63 - 1

unfoldable pub atoi : Text → Option ℤ
unfolding magnitude
atoi [] = none
atoi (c ∷ s) =
    if c == b'-'
    then map_some negate (magnitude (max_int64 + 1) s)
    else if c == b'+'
    then map_some pos (magnitude max_int64 s)
    else map_some pos (magnitude max_int64 (c ∷ s))

-- The digits of a number, least significant last, on fuel.
unfoldable pub digits_of : ℕ → ℕ → Text
digits_of zero n = []
digits_of (suc fuel) n =
    let front = digits_of fuel (n / 10) in
    if ltb n 10 then (b'0' + n) ∷ [] else front ++ (b'0' + n % 10) ∷ []

-- strconv.Itoa of a number that is not negative.
unfoldable pub itoa : ℕ → Text
unfolding digits_of
itoa n = digits_of (suc n) n

digits_value-append :
    (acc n : ℕ) (s t : Text)
    → digits_value acc s ≡ some n
    → digits_value acc (s ++ t) ≡ digits_value n t
unfolding digits_value
digits_value-append acc n [] t h = ground (arith, h)
digits_value-append acc n (c ∷ s) t h =
    ground (arith, digits_value-append (acc * 10 + (c - b'0')) n s t)

digits_value-digit : (acc d : ℕ) → d < 10 → digits_value acc ((b'0' + d) ∷ []) ≡ some (acc * 10 + d)
unfolding digits_value
digits_value-digit acc d h = ground arith

-- Enough fuel gives all the digits.
digits_value-digits_of : (fuel n : ℕ) → n < fuel → digits_value 0 (digits_of fuel n) ≡ some n
unfolding digits_of
digits_value-digits_of zero n h = absurd (omega arith)
digits_value-digits_of (suc fuel) n h = elim (Bool-cases (ltb n 10)) [
  | inl e ↦ rw e (digits_value-digit 0 n (ltb→lt n 10 e) ∙ ap some (omega arith))
  | inr e ↦ rw e (
      digits_value-append 0 (n / 10) (digits_of fuel (n / 10)) ((b'0' + n % 10) ∷ [])
        (digits_value-digits_of fuel (n / 10) (ground arith))
      ∙ digits_value-digit (n / 10) (n % 10) (omega arith)
      ∙ ap some (omega arith))
]

digits_of-head :
    (fuel n : ℕ)
    → n < fuel
    → (d : ℕ) × (s : Text) × (digits_of fuel n ≡ d ∷ s) × (is_digit d ≡ true)
unfolding digits_of
digits_of-head zero n h = absurd (omega arith)
digits_of-head (suc fuel) n h = elim (Bool-cases (ltb n 10)) [
  | inl e ↦ rw e (b'0' + n, [], refl, ground arith)
  | inr e ↦
      let (d, s, f, g) = digits_of-head fuel (n / 10) (ground arith) in
      (d, s ++ (b'0' + n % 10) ∷ [], rw (e, f), g)
]

atoi-digits :
    (d n : ℕ) (s : Text)
    → is_digit d ≡ true
    → digits_value 0 (d ∷ s) ≡ some n
    → n ≤ max_int64
    → atoi (d ∷ s) ≡ some (pos n)
unfolding atoi magnitude
atoi-digits d n s g h b = ground arith

-- Atoi reads back what Itoa prints of an int that is not negative.
pub atoi-itoa : (n : ℕ) → n ≤ max_int64 → atoi (itoa n) ≡ some (pos n)
unfolding itoa
atoi-itoa n b =
    let (d, s, e, g) = digits_of-head (suc n) n (omega arith) in
    ap atoi e
    ∙ atoi-digits d n s g
        (ap (digits_value 0) (sym e) ∙ digits_value-digits_of (suc n) n (omega arith)) b
