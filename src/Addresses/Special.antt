-- ===== src/Addresses/Special.antt =====
-- src/buyer.ts: the blocks of addresses that isPrivateOrSpecialIpv4 names, as blocks of 32-bit numbers.
use openunion.Prelude.{
  ℕ, ◌≡◌, ◌≤◌, ◌+◌, ◌*◌, Bool, true, false, some, [], ◌∷◌, ◌&&◌, ◌||◌, leb, arith, refl,
}
use openunion.Addresses.{is_special, is_private_or_special_ipv4}

abbrev pub address : ℕ → ℕ → ℕ → ℕ → ℕ
address a b c d = ((a * 256 + b) * 256 + c) * 256 + d

abbrev pub within : ℕ → ℕ → ℕ → Bool
within first last n = leb first n && leb n last

-- 0/8, 10/8, 127/8, 169.254/16, 172.16/12, 192.168/16, 192.0.0/24, 192.0.2/24, 192.88.99/24,
-- 198.18/15, 198.51.100/24, 203.0.113/24, 224/4 and 240/4.
abbrev pub in_blocks : ℕ → Bool
in_blocks n =
    within 0 16777215 n
    || within 167772160 184549375 n
    || within 2130706432 2147483647 n
    || within 2851995648 2852061183 n
    || within 2886729728 2887778303 n
    || within 3232235520 3232301055 n
    || within 3221225472 3221225727 n
    || within 3221225984 3221226239 n
    || within 3227017984 3227018239 n
    || within 3323068416 3323199487 n
    || within 3325256704 3325256959 n
    || within 3405803776 3405804031 n
    || within 3758096384 4294967295 n

-- To split a test of two.
or_elim : {P : Type 0} (x y : Bool) → (x ≡ true → P) → (y ≡ true → P) → (x || y) ≡ true → P
or_elim true y f g h = f refl
or_elim false y f g h = g h

-- Each block by itself.
module _ (a b c d : ℕ) (hb : b ≤ 255) (hc : c ≤ 255) (hd : d ≤ 255) where
  this_network : within 0 16777215 (address a b c d) ≡ true → is_special a b ≡ true
  unfolding is_special
  this_network h = ground (arith, hb, hc, hd, h)

  private_10 : within 167772160 184549375 (address a b c d) ≡ true → is_special a b ≡ true
  unfolding is_special
  private_10 h = ground (arith, hb, hc, hd, h)

  loopback : within 2130706432 2147483647 (address a b c d) ≡ true → is_special a b ≡ true
  unfolding is_special
  loopback h = ground (arith, hb, hc, hd, h)

  link_local : within 2851995648 2852061183 (address a b c d) ≡ true → is_special a b ≡ true
  unfolding is_special
  link_local h = ground (arith, hb, hc, hd, h)

  private_172 : within 2886729728 2887778303 (address a b c d) ≡ true → is_special a b ≡ true
  unfolding is_special
  private_172 h = ground (arith, hb, hc, hd, h)

  private_192 : within 3232235520 3232301055 (address a b c d) ≡ true → is_special a b ≡ true
  unfolding is_special
  private_192 h = ground (arith, hb, hc, hd, h)

  protocol_assignments :
      within 3221225472 3221225727 (address a b c d) ≡ true → is_special a b ≡ true
  unfolding is_special
  protocol_assignments h = ground (arith, hb, hc, hd, h)

  test_net_1 : within 3221225984 3221226239 (address a b c d) ≡ true → is_special a b ≡ true
  unfolding is_special
  test_net_1 h = ground (arith, hb, hc, hd, h)

  relay_6to4 : within 3227017984 3227018239 (address a b c d) ≡ true → is_special a b ≡ true
  unfolding is_special
  relay_6to4 h = ground (arith, hb, hc, hd, h)

  benchmarking : within 3323068416 3323199487 (address a b c d) ≡ true → is_special a b ≡ true
  unfolding is_special
  benchmarking h = ground (arith, hb, hc, hd, h)

  test_net_2 : within 3325256704 3325256959 (address a b c d) ≡ true → is_special a b ≡ true
  unfolding is_special
  test_net_2 h = ground (arith, hb, hc, hd, h)

  test_net_3 : within 3405803776 3405804031 (address a b c d) ≡ true → is_special a b ≡ true
  unfolding is_special
  test_net_3 h = ground (arith, hb, hc, hd, h)

  multicast_and_reserved :
      within 3758096384 4294967295 (address a b c d) ≡ true → is_special a b ≡ true
  unfolding is_special
  multicast_and_reserved h = ground (arith, hb, hc, hd, h)

-- Every address in one of these blocks is refused.
pub blocks_refused :
    (a b c d : ℕ)
    → b ≤ 255
    → c ≤ 255
    → d ≤ 255
    → in_blocks (address a b c d) ≡ true
    → is_private_or_special_ipv4 (some a ∷ some b ∷ some c ∷ some d ∷ []) ≡ true
unfolding is_private_or_special_ipv4
blocks_refused a b c d hb hc hd h =
    or_elim _ _
      (or_elim _ _
        (or_elim _ _
          (or_elim _ _
            (or_elim _ _
              (or_elim _ _
                (or_elim _ _
                  (or_elim _ _
                    (or_elim _ _
                      (or_elim _ _
                        (or_elim _ _
                          (or_elim _ _ (this_network a b c d hb hc hd)
                            (private_10 a b c d hb hc hd))
                          (loopback a b c d hb hc hd))
                        (link_local a b c d hb hc hd))
                      (private_172 a b c d hb hc hd))
                    (private_192 a b c d hb hc hd))
                  (protocol_assignments a b c d hb hc hd))
                (test_net_1 a b c d hb hc hd))
              (relay_6to4 a b c d hb hc hd))
            (benchmarking a b c d hb hc hd))
          (test_net_2 a b c d hb hc hd))
        (test_net_3 a b c d hb hc hd))
      (multicast_and_reserved a b c d hb hc hd) h
