-- ===== src/Update/Precedence.antt =====
-- internal/cli/update.go, compareVersions: the precedence of versions is a strict order.
use a2abridge.Prelude.{
  is_some, Text, text_eq_iff, text_eq_refl, ◌≡◌, refl, sym, ap, ◌∙◌, ◌↔◌, Bool, true, false, not,
  ◌&&◌, Option, none, some, [], arith,
}
use a2abridge.Strings.Order.{text_lt_irrefl, text_lt_trans, text_lt_total}
use a2abridge.Update.Versions.{
  Version, parse_version, Sign, older, same, newer, compare_pre, compare_parsed, compare_both,
  compare_versions,
}

abbrev pub opposite : Sign → Sign
opposite older = newer
opposite same = same
opposite newer = older

-- The empty tail is above all others.
pre-swap : (p q : Text) → compare_pre q p ≡ opposite (compare_pre p q)
unfolding compare_pre
pre-swap p q = ground (
  arith,
  text_eq_iff p q,
  text_eq_iff q p,
  text_eq_iff p [],
  text_eq_iff q [],
  text_lt_total p q,
  text_lt_total q p,
  text_lt_trans p q p,
  text_lt_irrefl p,
)

pre_trans :
    (p q r : Text) → compare_pre p q ≡ older → compare_pre q r ≡ older → compare_pre p r ≡ older
unfolding compare_pre
pre_trans p q r h k = ground (
  arith,
  h,
  k,
  text_eq_iff p q,
  text_eq_iff q r,
  text_eq_iff p r,
  text_eq_iff p [],
  text_eq_iff q [],
  text_eq_iff r [],
  text_lt_trans p q r,
  text_lt_trans q p q,
  text_lt_irrefl q,
)

pre_same : (p q : Text) → compare_pre p q ≡ same → p ≡ q
unfolding compare_pre
pre_same p q h = ground (arith, h, text_eq_iff p q)

parsed-swap : (v w : Version) → compare_parsed w v ≡ opposite (compare_parsed v w)
unfolding compare_parsed
parsed-swap v w = ground (arith, pre-swap v.pre w.pre)

parsed_trans :
    (u v w : Version)
    → compare_parsed u v ≡ older
    → compare_parsed v w ≡ older
    → compare_parsed u w ≡ older
unfolding compare_parsed
parsed_trans u v w h k =
    ground (arith, h, k, pre_trans u.pre v.pre w.pre, pre_same u.pre v.pre, pre_same v.pre w.pre)

abbrev pub map_sign : Option Sign → Option Sign
map_sign none = none
map_sign (some s) = some (opposite s)

both-swap : (v w : Option Version) → compare_both w v ≡ map_sign (compare_both v w)
unfolding compare_both
both-swap none none = refl
both-swap none (some w) = refl
both-swap (some v) none = refl
both-swap (some v) (some w) = ap some (parsed-swap v w)

both_trans :
    (u v w : Option Version)
    → compare_both u v ≡ some older
    → compare_both v w ≡ some older
    → compare_both u w ≡ some older
unfolding compare_both
both_trans none v w h k = absurd (grind arith)
both_trans (some u) none w h k = absurd (grind arith)
both_trans (some u) (some v) none h k = absurd (grind arith)
both_trans (some u) (some v) (some w) h k = ap some (parsed_trans u v w (grind arith) (grind arith))

parsed_same : (v w : Version) → compare_parsed v w ≡ same → v ≡ w
unfolding compare_parsed
parsed_same v w h =
    let a : v.major ≡ w.major = ground (arith, h) in
    let b : v.minor ≡ w.minor = ground (arith, h) in
    let c : v.patch ≡ w.patch = ground (arith, h) in
    let d : v.pre ≡ w.pre = ground (arith, h, pre_same v.pre w.pre) in
    λ i. record { major = a i; minor = b i; patch = c i; pre = d i }

parsed_refl : (v : Version) → compare_parsed v v ≡ same
unfolding compare_parsed compare_pre
parsed_refl v = ground (arith, text_eq_refl v.pre)

both_same : (v w : Option Version) → compare_both v w ≡ some same → (v ≡ w) × (is_some v ≡ true)
unfolding compare_both
both_same none w h = absurd (grind arith)
both_same (some v) none h = absurd (grind arith)
both_same (some v) (some w) h = (ap some (parsed_same v w (grind arith)), refl)

both_refl : (v : Option Version) → is_some v ≡ true → compare_both v v ≡ some same
unfolding compare_both
both_refl none h = absurd (grind arith)
both_refl (some v) h = ap some (parsed_refl v)

abbrev pub is_older : Option Sign → Bool
is_older (some older) = true
is_older _ = false

is_older_sign : (o : Option Sign) → is_older o ≡ true → o ≡ some older
is_older_sign none h = absurd (grind arith)
is_older_sign (some older) h = refl
is_older_sign (some same) h = absurd (grind arith)
is_older_sign (some newer) h = absurd (grind arith)

older_trans :
    (v w x : Option Version)
    → is_older (compare_both v w) ≡ true
    → is_older (compare_both w x) ≡ true
    → is_older (compare_both v x) ≡ true
older_trans v w x h k = ap is_older (both_trans v w x (is_older_sign _ h) (is_older_sign _ k))

-- Versions are ordered strictly: comparing them the other way round gives the opposite sign, or no
-- sign either way; none is older than one that is older than a third without being older than the
-- third; and versions compare as the same exactly where they parse alike, as some version.
pub compare_versions_lem :
    (a b c : Text)
    → (compare_versions b a ≡ map_sign (compare_versions a b))
      × ((is_older (compare_versions a b)
            && (is_older (compare_versions b c) && not (is_older (compare_versions a c))))
          ≡ false)
      × ((compare_versions a b ≡ some same)
          ↔ ((parse_version a ≡ parse_version b) × (is_some (parse_version a) ≡ true)))
unfolding compare_versions
compare_versions_lem a b c = (
  both-swap (parse_version a) (parse_version b),
  ground (arith, older_trans (parse_version a) (parse_version b) (parse_version c)),
  (
    both_same (parse_version a) (parse_version b),
    λ (e, h). ap (compare_both (parse_version a)) (sym e) ∙ both_refl (parse_version a) h,
  ),
)
