-- ===== src/Rlpx/Frame/Mac.antt =====
-- The sizes that the header and the two MACs of a frame have.
use go_devp2p.Prelude.{
  ℕ, zero, suc, ◌+◌, ◌*◌, ◌/◌, ◌%◌, ◌^◌, ◌≤◌, ◌≡◌, ap, [], ◌∷◌, Bytes, IsBytes, length, length-drop,
  length-take, take, drop, ok, arith,
}
use go_devp2p.Rlpx.Frame.{
  Primitives, update_mac, update_mac_impl, update_mac_with_header, set_header, size_of, max_uint24,
}
use go_devp2p.Rlpx.Frame.Stream.{Laws}

pub size_of-set_header :
    (n : ℕ) (h : Bytes) → n ≤ max_uint24 → size_of (take 16 (set_header n h)) ≡ ok n
unfolding size_of set_header
size_of-set_header n h le =
    let e : n % 256 + (n / 2 ^ 8 % 256) * 2 ^ 8 + (n / 2 ^ 16 % 256) * 2 ^ 16 ≡ n = omega arith in
    ap ok e

pub length-set_header : (n : ℕ) (h : Bytes) → length h ≡ 32 → length (set_header n h) ≡ 32
unfolding set_header
length-set_header n h e = omega (arith, length-drop 6 h)

pub IsBytes-drop : (n : ℕ) (b : Bytes) → IsBytes b → IsBytes (drop n b)
IsBytes-drop zero b h = h
IsBytes-drop (suc n) [] h = h
IsBytes-drop (suc n) (x ∷ b) h = IsBytes-drop n b h.1

pub IsBytes-take : (n : ℕ) (b : Bytes) → IsBytes b → IsBytes (take n b)
IsBytes-take zero b h = tt
IsBytes-take (suc n) [] h = tt
IsBytes-take (suc n) (x ∷ b) h = (h.0, IsBytes-take n b h.1)

pub IsBytes-set_header : (n : ℕ) (h : Bytes) → IsBytes h → IsBytes (set_header n h)
unfolding set_header
IsBytes-set_header n h b = (
  omega arith,
  (omega arith, (omega arith, (omega arith, (omega arith, (omega arith, IsBytes-drop 6 h b))))),
)

module _ (c : Primitives) (l : Laws c) where
  pub length-update_mac : (written : Bytes) → length (update_mac c written).1 ≡ 16
  unfolding update_mac update_mac_impl
  length-update_mac written =
      let d = c.digest (update_mac c written).0 in
      let e : length (take 16 d) ≡ 16 =
        omega (arith, length-take 16 d, l.digest_size (update_mac c written).0) in
      e

  pub length-update_mac_with_header :
      (written header : Bytes) → length (update_mac_with_header c written header).1 ≡ 16
  unfolding update_mac_with_header update_mac_impl
  length-update_mac_with_header written header =
      let w = (update_mac_with_header c written header).0 in
      let e : length (take 16 (c.digest w)) ≡ 16 =
        omega (arith, length-take 16 (c.digest w), l.digest_size w) in
      e
