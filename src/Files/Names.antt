-- ===== src/Files/Names.antt =====
-- src/files.rs, unique_filename: when two resources get different file names.
use k8s_sidecar_rs.Base.{
  Text, ascii, ℕ, false, [], ◌∷◌, ◌++◌, ◌≡◌, append_assoc, arith, ap, refl, nat_eq,
}
use k8s_sidecar_rs.Base.Str.{has_char}
use k8s_sidecar_rs.Kubeapi.Items.{Kind, config_map, secret, as_str}
use k8s_sidecar_rs.Files.{unique_filename}

pub append-cancel : (s a b : Text) → s ++ a ≡ s ++ b → a ≡ b
append-cancel [] a b e = e
append-cancel (c ∷ s) a b e = append-cancel s a b (cc)

-- Two texts without the separator, each followed by it: both parts agree.
cut_at :
    (c : ℕ) (a b r s : Text)
    → has_char c a ≡ false
    → has_char c b ≡ false
    → a ++ c ∷ r ≡ b ++ c ∷ s
    → (a ≡ b) × (r ≡ s)
unfolding has_char
cut_at c [] [] r s ha hb e = ground arith
cut_at c [] (y ∷ b) r s ha hb e = ground arith
cut_at c (x ∷ a) [] r s ha hb e = ground arith
cut_at c (x ∷ a) (y ∷ b) r s ha hb e = ground (arith, cut_at c a b r s)

abbrev first : Text → ℕ
first [] = 0
first (c ∷ s) = c

-- The part after the namespace.
tail_of : Kind → Text → Text → Text
tail_of kind name filename = as_str kind ++ (b'_' ∷ name ++ b'.' ∷ filename)

tail_of-injective :
    (k l : Kind) (n m f g : Text)
    → has_char b'.' n ≡ false
    → has_char b'.' m ≡ false
    → tail_of k n f ≡ tail_of l m g
    → (k ≡ l) × (n ≡ m) × (f ≡ g)
unfolding tail_of as_str
tail_of-injective config_map config_map n m f g hn hm e =
    let p = cut_at b'.' n m f g hn hm (append-cancel (ascii "configmap_") _ _ e) in (refl, p.0, p.1)
tail_of-injective config_map secret n m f g hn hm e = absurd (omega (arith, ap first e))
tail_of-injective secret config_map n m f g hn hm e = absurd (omega (arith, ap first e))
tail_of-injective secret secret n m f g hn hm e =
    let p = cut_at b'.' n m f g hn hm (append-cancel (ascii "secret_") _ _ e) in (refl, p.0, p.1)

-- For namespaces and resource names without a dot, equal unique file names come from the same
-- namespace, kind, resource name and data key.
pub unique_filename-injective :
    (ns ms : Text) (k l : Kind) (n m f g : Text)
    → has_char b'.' ns ≡ false
    → has_char b'.' ms ≡ false
    → has_char b'.' n ≡ false
    → has_char b'.' m ≡ false
    → unique_filename f ns (as_str k) n ≡ unique_filename g ms (as_str l) m
    → (ns ≡ ms) × (k ≡ l) × (n ≡ m) × (f ≡ g)
unfolding unique_filename tail_of
unique_filename-injective ns ms k l n m f g hns hms hn hm e =
    let p = cut_at b'.' ns ms _ _ hns hms (append-cancel (ascii "namespace_") _ _ e) in
    let q = tail_of-injective k l n m f g hn hm p.1 in (p.0, q.0, q.1, q.2)

-- A resource `n.m` with the data key `f`, and a resource `n` with the data key `m.f`, of one
-- namespace and kind, have the same unique file name.
pub unique_filename-collision :
    (ns resource n m f : Text)
    → unique_filename f ns resource (n ++ b'.' ∷ m) ≡ unique_filename (m ++ b'.' ∷ f) ns resource n
unfolding unique_filename
unique_filename-collision ns resource n m f =
    ap (λ t. ascii "namespace_" ++ (ns ++ (b'.' ∷ resource ++ (b'_' ∷ t))))
      (append_assoc n (b'.' ∷ m) (b'.' ∷ f))
