-- ===== src/Tools/Order.antt =====
-- internal/agent/mcp.go, listPeers: the concurrent resolution of the cards.
use a2abridge.Prelude.{
  ltb, ◌==◌, if◌then◌else◌, Bool-cases, length, get_elem?, any, All, length-map, Text, codes,
  text_eq, ℕ, zero, suc, ◌≤◌, ◌<◌, ◌≡◌, refl, ap, ◌∙◌, inl, inr, true, false, Option, none, some,
  List, [], ◌∷◌, ◌++◌, map, arith,
}
use a2abridge.Strings.Words.{trim_right_rune}
use a2abridge.Tools.Directory.{
  PeerInfo, blank, Resolved, unresolved, resolved, peer_info, set_at, other_urls, write_info,
  fan_out, list_urls, listed_peers, list_peers,
}

some_inj {ℓ} : {A : Type ℓ} {x y : A} → some x ≡ some y → x ≡ y
some_inj e = cc

list_ext {ℓ} : {A : Type ℓ} (k l : List A) → ((n : ℕ) → get_elem? k n ≡ get_elem? l n) → k ≡ l
list_ext [] [] h = refl
list_ext [] (y ∷ l) h = absurd (grind (arith, h 0))
list_ext (x ∷ k) [] h = absurd (grind (arith, h 0))
list_ext (x ∷ k) (y ∷ l) h =
    ap (λ z. z ∷ k) (some_inj (h 0)) ∙ ap (λ m. y ∷ m) (list_ext k l (λ n. h (suc n)))

get_map_beyond {ℓ κ} :
    {A : Type ℓ} {B : Type κ} (f : A → B) (l : List A) (n : ℕ)
    → length l ≤ n
    → get_elem? (map f l) n ≡ none
get_map_beyond f [] n h = refl
get_map_beyond f (x ∷ l) zero h = absurd (omega (arith, h))
get_map_beyond f (x ∷ l) (suc n) h = get_map_beyond f l n (omega (arith, h))

length-set_at {ℓ} : {A : Type ℓ} (i : ℕ) (x : A) (l : List A) → length (set_at i x l) ≡ length l
unfolding set_at
length-set_at i x [] = refl
length-set_at zero x (y ∷ l) = refl
length-set_at (suc i) x (y ∷ l) = ap suc (length-set_at i x l)

module _ (resolve : Text → Resolved) where
  abbrev info : Text → PeerInfo
  info u = peer_info u (resolve u)

  write-cons :
      (i : ℕ) (e : Option Text) (o : PeerInfo) (out : List PeerInfo)
      → write_info resolve (suc i) e (o ∷ out) ≡ o ∷ write_info resolve i e out
  unfolding set_at
  write-cons i none o out = refl
  write-cons i (some u) o out = refl

  write-get :
      (urls : List Text) (out : List PeerInfo) (i n : ℕ)
      → length out ≡ length urls
      → get_elem? (write_info resolve i (get_elem? urls i) out) n
        ≡ (if n == i then get_elem? (map info urls) n else get_elem? out n)
  unfolding set_at
  write-get [] [] i n h = ground arith
  write-get [] (o ∷ out) i n h = absurd (grind arith)
  write-get (u ∷ urls) [] i n h = absurd (grind arith)
  write-get (u ∷ urls) (o ∷ out) zero zero h = refl
  write-get (u ∷ urls) (o ∷ out) zero (suc n) h = ground arith
  write-get (u ∷ urls) (o ∷ out) (suc i) zero h =
      ap (λ l. get_elem? l 0) (write-cons i (get_elem? urls i) o out) ∙ ground arith
  write-get (u ∷ urls) (o ∷ out) (suc i) (suc n) h =
      ap (λ l. get_elem? l (suc n)) (write-cons i (get_elem? urls i) o out)
      ∙ write-get urls out i n (omega (arith, h))
      ∙ ground arith

  write-length :
      (i : ℕ) (e : Option Text) (out : List PeerInfo)
      → length (write_info resolve i e out) ≡ length out
  write-length i none out = refl
  write-length i (some u) out = length-set_at i (info u) out

  fan_out-get :
      (urls : List Text) (schedule : List ℕ) (out : List PeerInfo) (n : ℕ)
      → length out ≡ length urls
      → get_elem? (fan_out resolve urls schedule out) n
        ≡ (if any (λ i. n == i) schedule then get_elem? (map info urls) n else get_elem? out n)
  unfolding fan_out
  fan_out-get urls [] out n h = refl
  fan_out-get urls (i ∷ schedule) out n h =
      let out' = write_info resolve i (get_elem? urls i) out in
      fan_out-get urls schedule out' n (write-length i (get_elem? urls i) out ∙ h)
      ∙ ground (arith, write-get urls out i n h)

  fan_out_complete :
      (urls : List Text) (schedule : List ℕ)
      → ((n : ℕ) → n < length urls → any (λ i. n == i) schedule ≡ true)
      → list_urls resolve schedule urls ≡ map info urls
  unfolding list_urls
  fan_out_complete urls schedule h =
      list_ext (fan_out resolve urls schedule (map (λ u. blank) urls)) (map info urls) (λ n. at n)
    where
      at :
          (n : ℕ)
          → get_elem? (fan_out resolve urls schedule (map (λ u. blank) urls)) n
            ≡ get_elem? (map info urls) n
      at n =
          fan_out-get urls schedule (map (λ u. blank) urls) n (length-map (λ u. blank) urls)
          ∙ elim (Bool-cases (ltb n (length urls))) [
            | inl e ↦ rw (h n (ground (arith, e))) refl
            | inr e ↦
                let beyond = get_map_beyond info urls n (ground (arith, e)) in
                rw (beyond, get_map_beyond (λ u. blank) urls n (ground (arith, e))) (ground arith)
          ]

  infos-other :
      (self : Text) (urls : List Text)
      → All (λ p. text_eq p.url self ≡ false) (map info (other_urls self urls))
  infos-other self [] = tt
  infos-other self (u ∷ urls) = elim (Bool-cases (text_eq u self)) [
    | inl e ↦ simp e (infos-other self urls)
    | inr e ↦ simp e (info_other u (resolve u) e, infos-other self urls)
  ]
    where
      info_other :
          (v : Text) (x : Resolved)
          → text_eq v self ≡ false
          → text_eq (peer_info v x).url self ≡ false
      info_other v (unresolved m) h = h
      info_other v (resolved c) h = h

  -- Whatever the order in which its goroutines write, listPeers returns the other agents of the
  -- directory, in the directory's order, each with its own card or its own error, once every index was
  -- written; and this agent is not among them.
  pub list_peers_lem :
      (get : Text → Option (ℕ × Option (List Text))) (directory self : Text) (urls : List Text)
      (schedule : List ℕ)
      → text_eq directory [] ≡ false
      → get (trim_right_rune b'/' directory ++ codes "/agents") ≡ some (200, some urls)
      → ((n : ℕ) → n < length (other_urls self urls) → any (λ i. n == i) schedule ≡ true)
      → (list_peers resolve schedule get directory self
          ≡ some (map (λ u. peer_info u (resolve u)) (other_urls self urls)))
        × All
            (λ p. text_eq p.url self ≡ false)
            (map (λ u. peer_info u (resolve u)) (other_urls self urls))
  unfolding list_peers listed_peers
  list_peers_lem get directory self urls schedule h e k = (
    simp (h, e) (ap some (fan_out_complete (other_urls self urls) schedule k)),
    infos-other self urls,
  )
