-- ===== src/Health/Families.antt =====
-- src/health.rs, bind_listener: which address of a name the health server takes.
use k8s_sidecar_rs.Base.{
  Bool, true, false, Option, none, some, List, [], ◌∷◌, ◌≡◌, refl, ◌∙◌, arith, inl, inr,
  Option-cases, or_else, leb, if◌then◌else◌,
}
use k8s_sidecar_rs.Health.Listen.{family_rank, insert_addr, sort_addrs, head, first_v6}

module _ {A : Type 0} (is_ipv6 : A → Bool) where
  abbrev nearer : A → Option A → A
  nearer a none = a
  nearer a (some b) = if leb (family_rank is_ipv6 a) (family_rank is_ipv6 b) then a else b

  head-insert_addr :
      (a : A) (addrs : List A)
      → head is_ipv6 (insert_addr is_ipv6 a addrs) ≡ some (nearer a (head is_ipv6 addrs))
  unfolding insert_addr
  head-insert_addr a [] = refl
  head-insert_addr a (b ∷ addrs) = ground arith

  first_v6_sound : (addrs : List A) (b : A) → first_v6 is_ipv6 addrs ≡ some b → is_ipv6 b ≡ true
  first_v6_sound [] b h = cc
  first_v6_sound (a ∷ addrs) b h = ground (arith, first_v6_sound addrs b)

  first_v6-none :
      (addrs : List A) (b : A)
      → first_v6 is_ipv6 addrs ≡ none
      → head is_ipv6 addrs ≡ some b
      → is_ipv6 b ≡ false
  first_v6-none [] b h e = cc
  first_v6-none (a ∷ addrs) b h e = ground (arith)

  nearer-first :
      (a : A) (addrs : List A)
      → some (nearer a (or_else (first_v6 is_ipv6 addrs) (head is_ipv6 addrs)))
        ≡ or_else (first_v6 is_ipv6 (a ∷ addrs)) (head is_ipv6 (a ∷ addrs))
  nearer-first a addrs = elim (Option-cases (first_v6 is_ipv6 addrs)) [
    | inr (b, e) ↦ ground (arith, first_v6_sound addrs b e)
    | inl e ↦ elim (Option-cases (head is_ipv6 addrs)) [
      | inl empty ↦ ground (arith)
      | inr (b, h) ↦ ground (arith, first_v6-none addrs b e h)
    ]
  ]

  -- The first of the sorted addresses is the first IPv6 address of the list, or if it has none the
  -- first address of the list. There is none only if the list is empty.
  pub sort_addrs-first :
      (addrs : List A)
      → head is_ipv6 (sort_addrs is_ipv6 addrs)
        ≡ or_else (first_v6 is_ipv6 addrs) (head is_ipv6 addrs)
  unfolding sort_addrs
  sort_addrs-first [] = refl
  sort_addrs-first (a ∷ addrs) =
      head-insert_addr a (sort_addrs is_ipv6 addrs)
      ∙ rw (sort_addrs-first addrs) (nearer-first a addrs)
