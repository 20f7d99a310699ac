-- ===== src/Push/Dial.antt =====
-- internal/agent/push.go: guardPushDial and isBlockedIP, with the tests of net.IP that they call. An
-- address is its 16 bytes; net.SplitHostPort and net.ParseIP are parameters.
use a2abridge.Strings.{cut_prefix}
use a2abridge.Prelude.{
  leb, ◌==◌, if◌then◌else◌, any, Text, text_eq, ℕ, ◌+◌, ◌*◌, ◌/◌, ◌%◌, ◌<◌, ◌≡◌, refl, ap, ◌∙◌,
  Bool, false, ◌&&◌, ◌||◌, Option, none, some, List, [], ◌∷◌, ◌++◌, arith,
}

abbrev pub Quad : Type 0
Quad = ℕ × ℕ × ℕ × ℕ

-- The first bytes of an IPv4 address in its 16-byte form.
abbrev pub v4_prefix : List ℕ
v4_prefix = 0 ∷ 0 ∷ 0 ∷ 0 ∷ 0 ∷ 0 ∷ 0 ∷ 0 ∷ 0 ∷ 0 ∷ 255 ∷ 255 ∷ []

unfoldable pub quad_of : Option (List ℕ) → Option Quad
quad_of (some (a ∷ b ∷ c ∷ d ∷ [])) = some (a, b, c, d)
quad_of _ = none

-- `IP.To4`
unfoldable pub to4 : List ℕ → Option Quad
to4 ip = quad_of (cut_prefix ip v4_prefix)

-- IsLoopback, IsPrivate, IsLinkLocalUnicast, IsLinkLocalMulticast, IsUnspecified and IsMulticast of
-- an IPv4 address, in the source's order. A mask is a division.
unfoldable pub is_blocked4 : Quad → Bool
is_blocked4 (a, b, c, d) =
    a == 127
    || ((a == 10 || (a == 172 && b / 16 == 1 || a == 192 && b == 168))
        || (a == 169 && b == 254
            || (a == 224 && (b == 0 && c == 0)
                || (a == 0 && (b == 0 && (c == 0 && d == 0)) || a / 16 == 14))))

abbrev pub zeros15 : List ℕ
zeros15 = 0 ∷ 0 ∷ 0 ∷ 0 ∷ 0 ∷ 0 ∷ 0 ∷ 0 ∷ 0 ∷ 0 ∷ 0 ∷ 0 ∷ 0 ∷ 0 ∷ 0 ∷ []

-- The tests of the first two bytes: fc00::/7, fe80::/10, and multicast by its scope or at all.
unfoldable pub is_blocked_head : List ℕ → Bool
is_blocked_head (x ∷ y ∷ rest) =
    x / 2 == 126 || (x == 254 && y / 64 == 2 || (x == 255 && y % 16 == 2 || x == 255))
is_blocked_head _ = false

-- The same methods on an address that is not IPv4: ::1, the tests of the head, and ::.
unfoldable pub is_blocked6 : List ℕ → Bool
unfolding is_blocked_head
is_blocked6 ip =
    text_eq ip (zeros15 ++ 1 ∷ []) || (is_blocked_head ip || text_eq ip (zeros15 ++ 0 ∷ []))

unfoldable pub is_blocked_by : List ℕ → Option Quad → Bool
is_blocked_by ip none = is_blocked6 ip
is_blocked_by ip (some q) = is_blocked4 q

-- `isBlockedIP`
unfoldable pub is_blocked_ip : List ℕ → Bool
is_blocked_ip ip = is_blocked_by ip (to4 ip)

-- What the dial guard says; the two errors differ in whether they wrap errBlockedPushTarget.
pub data Dial : Type 0 where
  dials invalid_address blocked_target : Dial

unfoldable pub dial_ip : Option (List ℕ) → Dial
dial_ip none = blocked_target
dial_ip (some ip) = if is_blocked_ip ip then blocked_target else dials

-- `guardPushDial`
unfoldable pub guard_push_dial : (Text → Option Text) → (Text → Option (List ℕ)) → Text → Dial
guard_push_dial split_host parse_ip addr = elim (split_host addr) [
  | none ↦ invalid_address
  | some host ↦ dial_ip (parse_ip host)
]

-- The value of an address as a number.
abbrev pub address : Quad → ℕ
address (a, b, c, d) = ((a * 256 + b) * 256 + c) * 256 + d

abbrev pub is_within : ℕ → ℕ × ℕ → Bool
is_within n (first, last) = leb first n && leb n last

-- The reserved IPv4 ranges: 127/8, 10/8, 172.16/12, 192.168/16, 169.254/16, 224.0.0/24, 0.0.0.0 and
-- 224/4.
abbrev pub reserved : List (ℕ × ℕ)
reserved =
    (address (127, 0, 0, 0), address (127, 255, 255, 255))
    ∷ (address (10, 0, 0, 0), address (10, 255, 255, 255))
    ∷ (address (172, 16, 0, 0), address (172, 31, 255, 255))
    ∷ (address (192, 168, 0, 0), address (192, 168, 255, 255))
    ∷ (address (169, 254, 0, 0), address (169, 254, 255, 255))
    ∷ (address (224, 0, 0, 0), address (224, 0, 0, 255))
    ∷ (address (0, 0, 0, 0), address (0, 0, 0, 0))
    ∷ (address (224, 0, 0, 0), address (239, 255, 255, 255))
    ∷ []

module _ (a b c d : ℕ) (ha : a < 256) (hb : b < 256) (hc : c < 256) (hd : d < 256) where
  abbrev n : ℕ
  n = address (a, b, c, d)

  block_8 :
      (k : ℕ) → k < 256 → (a == k) ≡ is_within n (address (k, 0, 0, 0), address (k, 255, 255, 255))
  block_8 k h = ground arith

  block_16 :
      (k l : ℕ)
      → k < 256
      → l < 256
      → (a == k && b == l) ≡ is_within n (address (k, l, 0, 0), address (k, l, 255, 255))
  block_16 k l h g = ground arith

  block_24 :
      (a == 224 && (b == 0 && c == 0))
      ≡ is_within n (address (224, 0, 0, 0), address (224, 0, 0, 255))
  block_24 = ground arith

  block_32 :
      (a == 0 && (b == 0 && (c == 0 && d == 0)))
      ≡ is_within n (address (0, 0, 0, 0), address (0, 0, 0, 0))
  block_32 = ground arith

  block_12 :
      (a == 172 && b / 16 == 1) ≡ is_within n (address (172, 16, 0, 0), address (172, 31, 255, 255))
  block_12 = ground arith

  block_4 : (a / 16 == 14) ≡ is_within n (address (224, 0, 0, 0), address (239, 255, 255, 255))
  block_4 = ground arith

  is_blocked4-reserved : is_blocked4 (a, b, c, d) ≡ any (is_within n) reserved
  unfolding is_blocked4
  is_blocked4-reserved =
      rw
        (
          block_8 127 (omega arith),
          block_8 10 (omega arith),
          block_12,
          block_16 192 168 (omega arith) (omega arith),
          block_16 169 254 (omega arith) (omega arith),
          block_24,
          block_32,
          block_4,
        )
        (regroup (is_within n (address (127, 0, 0, 0), address (127, 255, 255, 255)))
          (is_within n (address (10, 0, 0, 0), address (10, 255, 255, 255)))
          (is_within n (address (172, 16, 0, 0), address (172, 31, 255, 255)))
          (is_within n (address (192, 168, 0, 0), address (192, 168, 255, 255)))
          (is_within n (address (169, 254, 0, 0), address (169, 254, 255, 255)))
          (is_within n (address (224, 0, 0, 0), address (224, 0, 0, 255)))
          (is_within n (address (0, 0, 0, 0), address (0, 0, 0, 0)))
          (is_within n (address (224, 0, 0, 0), address (239, 255, 255, 255))))
    where
      regroup :
          (p q r s t u v w : Bool)
          → (p || ((q || (r || s)) || (t || (u || (v || w)))))
            ≡ (p || (q || (r || (s || (t || (u || (v || (w || false))))))))
      regroup p q r s t u v w = ground arith

  to4-mapped : to4 (v4_prefix ++ a ∷ b ∷ c ∷ d ∷ []) ≡ some (a, b, c, d)
  unfolding to4 quad_of cut_prefix
  to4-mapped = refl

  blocked-mapped : is_blocked_ip (v4_prefix ++ a ∷ b ∷ c ∷ d ∷ []) ≡ any (is_within n) reserved
  unfolding is_blocked_ip is_blocked_by
  blocked-mapped =
      ap (is_blocked_by (v4_prefix ++ a ∷ b ∷ c ∷ d ∷ [])) to4-mapped ∙ is_blocked4-reserved

  -- A webhook whose host resolved to an IPv4 address, in its 16-byte form, is dialed exactly unless
  -- the address is in one of the reserved ranges: 0.0.0.0, 10/8, 127/8, 169.254/16, 172.16/12,
  -- 192.168/16, 224.0.0/24 and 224/4.
  pub guard_push_dial_lem :
      (split_host : Text → Option Text) (parse_ip : Text → Option (List ℕ)) (addr host : Text)
      → split_host addr ≡ some host
      → parse_ip host ≡ some (v4_prefix ++ a ∷ b ∷ c ∷ d ∷ [])
      → guard_push_dial split_host parse_ip addr
        ≡ (if any (is_within (address (a, b, c, d))) reserved then blocked_target else dials)
  unfolding guard_push_dial dial_ip
  guard_push_dial_lem split_host parse_ip addr host s p =
      rw (s, guard_push_dial)
        (ap dial_ip p ∙ ap (λ t. if t then blocked_target else dials) blocked-mapped)
