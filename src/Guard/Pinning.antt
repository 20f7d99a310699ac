-- ===== src/Guard/Pinning.antt =====
-- internal/agent/guard.go: an accepted request carries exactly the served version from then on.
use a2abridge.Numbers.{map_some}
use a2abridge.Prelude.{
  if◌then◌else◌, Option-cases, is_some, Text, text_eq, text_eq_iff, text_eq_refl, ◌≡◌, refl, sym,
  ap, ◌∙◌, ◌≢◌, ◌⊎◌, inl, inr, true, false, Option, none, some, [], ◌∷◌, arith,
}
use a2abridge.Strings.{trim_left, trim_right, trim_space}
use a2abridge.Guard.Version.{
  major_minor, Carrier, requested, version_ok, check_protocol_version, pin_protocol_version,
}

-- What the guard relies on of the SDK's version constant: it has a Major.Minor, and no spaces
-- around it.
pub record IsVersion (served : Text) : Type 0 where
  pub number : is_some (major_minor served) ≡ true
  pub trimmed : trim_space served ≡ served
  pub sent : served ≢ []

-- A place that carries no version, or the served one.
abbrev pub IsPinned : Text → Carrier → Type 0
IsPinned served r =
    ((r.header ≡ []) ⊎ (r.header ≡ served)) × ((r.param ≡ none) ⊎ (r.param ≡ some served))

blank-nil : trim_space [] ≡ []
unfolding trim_space trim_left trim_right
blank-nil = refl

version_ok-served : (served : Text) → IsVersion served → version_ok served served ≡ true
unfolding version_ok
version_ok-served served v = elim (Option-cases (major_minor served)) [
  | inl e ↦ absurd (false-true (ap is_some (sym e) ∙ v.number))
  | inr (t, e) ↦ rw (e, version_ok) (rw e (text_eq_refl t))
]
  where
    false-true : false ≢ true
    false-true h = cc

pin-IsPinned : (served : Text) (r : Carrier) → IsPinned served (pin_protocol_version served r)
unfolding pin_protocol_version
pin-IsPinned served r = (on_header r.header, on_param r.param)
  where
    on_header :
        (h : Text)
        → ((if text_eq h [] then h else served) ≡ [])
          ⊎ ((if text_eq h [] then h else served) ≡ served)
    on_header [] = unfold text_eq in inl refl
    on_header (c ∷ h) = unfold text_eq in inr refl

    on_param :
        (p : Option Text)
        → (map_some (λ v. served) p ≡ none) ⊎ (map_some (λ v. served) p ≡ some served)
    on_param none = inl refl
    on_param (some p) = inr refl

requested-pin :
    (served h : Text) (p : Option Text)
    → IsVersion served
    → requested (record { header = h; param = p }) ≢ []
    → requested (pin_protocol_version served (record { header = h; param = p })) ≡ served
unfolding requested pin_protocol_version text_eq
requested-pin served [] none v n = absurd (n (rw blank-nil refl))
requested-pin served [] (some p) v n = rw (blank-nil, v.trimmed)
requested-pin served (c ∷ h) p v n = ground (arith, v.trimmed, v.sent, text_eq_iff served [])

-- A request whose version is accepted is pinned: in the header and in the request parameter it then
-- carries the served version or none, it asks for exactly the served version, and a second check
-- accepts it. The served version is assumed to have a Major.Minor and no spaces around it.
pub pin_protocol_version_lem :
    (served : Text) (r : Carrier)
    → IsVersion served
    → check_protocol_version served r ≡ true
    → let p = pin_protocol_version served r in
      IsPinned served p × (requested p ≡ served) × (check_protocol_version served p ≡ true)
unfolding check_protocol_version
pin_protocol_version_lem served r v h =
    let e = requested-pin served r.header r.param v asked in
    (pin-IsPinned served r, e, rw (e, unsent) (version_ok-served served v))
  where
    unsent : text_eq served [] ≡ false
    unsent = ground (arith, v.sent, text_eq_iff served [])

    asked : requested r ≡ [] → ⊥
    asked z = ground (arith, h, z, text_eq_iff (requested r) [])
