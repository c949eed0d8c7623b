-- ===== src/Ssrf/Ipv4.antt =====
-- The text tests on IPv4 literals against the address ranges, for every address in the canonical
-- decimal form that the URL parser gives a host.
use mathlib.Core.Path.{ap₂}
use ai_business_operating_sy.Base.{
  ap, ◌∙◌, Bool, List, Text, [], ap, arith, codes, eqb, false, if◌then◌else◌, leb, ltb, refl,
  split_on, true, ℕ, ◌%◌, ◌&&◌, ◌++◌, ◌+◌, ◌/◌, ◌<◌, ◌||◌, ◌∙◌, ◌∷◌, ◌≡◌,
}
use ai_business_operating_sy.Ssrf.Guard.{
  Class, matches_prefix, literal, range, digit, dot, is_private_v4, looks_like_ipv4,
  is_private_literal, short_number,
}

-- The decimal digits of a byte.
abbrev pub dec : ℕ → Text
dec n =
    if ltb n 10
    then (48 + n) ∷ []
    else if ltb n 100
    then (48 + n / 10) ∷ (48 + n % 10) ∷ []
    else (48 + n / 100) ∷ (48 + n / 10 % 10) ∷ (48 + n % 10) ∷ []

unfoldable pub octet : ℕ → Text → Text
octet n rest = dec n ++ b'.' ∷ rest

and_true : (x : Bool) → (x && true) ≡ x
and_true true = refl
and_true false = refl

or_false : (x : Bool) → (x || false) ≡ x
or_false true = refl
or_false false = refl

join_two :
    (x y p q k : Bool) → ((x && (y && p)) || ((x && (y && q)) || k)) ≡ ((x && (y && (p || q))) || k)
join_two true true true q k = refl
join_two true true false q k = refl
join_two true false p q k = refl
join_two false y p q k = refl

join_three :
    (x p q r k : Bool) → ((x && p) || ((x && q) || ((x && r) || k))) ≡ ((x && (p || (q || r))) || k)
join_three true true q r k = refl
join_three true false true r k = refl
join_three true false false true k = refl
join_three true false false false k = refl
join_three false p q r k = refl

join_four :
    (x p q r s k : Bool)
    → ((x && p) || ((x && q) || ((x && r) || ((x && s) || k))))
      ≡ ((x && (p || (q || (r || s)))) || k)
join_four true true q r s k = refl
join_four true false q r s k = join_three true q r s k
join_four false p q r s k = refl

block_172 :
    (b : ℕ)
    → ((leb 16 b && leb b 19) || ((leb 20 b && leb b 29) || (leb 30 b && leb b 31)))
      ≡ (leb 16 b && leb b 31)
block_172 b = ground arith

shared_100 :
    (b : ℕ)
    → ((leb 64 b && leb b 69)
        || ((leb 70 b && leb b 99) || ((leb 100 b && leb b 119) || (leb 120 b && leb b 127))))
      ≡ (leb 64 b && leb b 127)
shared_100 b = ground arith

-- A regular expression that starts with a whole octet.
octet-literal :
    (a n : ℕ) (ks : List Class) (rest : Text)
    → a < 256
    → n < 256
    → matches_prefix (literal (dec n) ++ dot ∷ ks) (octet a rest)
      ≡ (eqb a n && matches_prefix ks rest)
unfolding octet
octet-literal a n ks rest h k = ground arith

-- Ranges of the second octet, by their least number.
abbrev from_16 : List Class
from_16 = literal (codes "1") ++ range b'6' b'9' ∷ dot ∷ []

abbrev from_20 : List Class
from_20 = literal (codes "2") ++ digit ∷ dot ∷ []

abbrev from_30 : List Class
from_30 = literal (codes "3") ++ range b'0' b'1' ∷ dot ∷ []

abbrev from_64 : List Class
from_64 = literal (codes "6") ++ range b'4' b'9' ∷ dot ∷ []

abbrev from_70 : List Class
from_70 = range b'7' b'9' ∷ digit ∷ dot ∷ []

abbrev from_100 : List Class
from_100 = literal (codes "1") ++ range b'0' b'1' ∷ digit ∷ dot ∷ []

abbrev from_120 : List Class
from_120 = literal (codes "12") ++ range b'0' b'7' ∷ dot ∷ []

abbrev from_18 : List Class
from_18 = literal (codes "1") ++ range b'8' b'9' ∷ dot ∷ []

module _ (b : ℕ) (rest : Text) (hb : b < 256) where
  second_16 : matches_prefix from_16 (octet b rest) ≡ (leb 16 b && leb b 19)
  unfolding octet
  second_16 = ground arith

  second_20 : matches_prefix from_20 (octet b rest) ≡ (leb 20 b && leb b 29)
  unfolding octet
  second_20 = ground arith

  second_30 : matches_prefix from_30 (octet b rest) ≡ (leb 30 b && leb b 31)
  unfolding octet
  second_30 = ground arith

  second_64 : matches_prefix from_64 (octet b rest) ≡ (leb 64 b && leb b 69)
  unfolding octet
  second_64 = ground arith

  second_70 : matches_prefix from_70 (octet b rest) ≡ (leb 70 b && leb b 99)
  unfolding octet
  second_70 = ground arith

  second_100 : matches_prefix from_100 (octet b rest) ≡ (leb 100 b && leb b 119)
  unfolding octet
  second_100 = ground arith

  second_120 : matches_prefix from_120 (octet b rest) ≡ (leb 120 b && leb b 127)
  unfolding octet
  second_120 = ground arith

  second_18 : matches_prefix from_18 (octet b rest) ≡ (leb 18 b && leb b 19)
  unfolding octet
  second_18 = ground arith

-- The ranges that the regular expressions stand for.
abbrev pub is_private_octets : ℕ → ℕ → ℕ → Bool
is_private_octets a b c =
    eqb a 10
    || (eqb a 127
        || ((eqb a 172 && (leb 16 b && leb b 31))
            || ((eqb a 192 && eqb b 168)
                || ((eqb a 169 && eqb b 254)
                    || (eqb a 0
                        || ((eqb a 100 && (leb 64 b && leb b 127))
                            || ((eqb a 192 && (eqb b 0 && (eqb c 0 || eqb c 2)))
                                || ((eqb a 198 && (leb 18 b && leb b 19))
                                    || ((eqb a 198 && (eqb b 51 && eqb c 100))
                                        || (eqb a 203 && (eqb b 0 && eqb c 113)))))))))))

-- Each alternative of `PRIVATE_V4` on an address.
module _ (a b c : ℕ) (rest : Text) (ha : a < 256) (hb : b < 256) (hc : c < 256) where
  abbrev address : Text
  address = octet a (octet b (octet c rest))

  abbrev after_a : Text
  after_a = octet b (octet c rest)

  whole : (n : ℕ) → n < 256 → matches_prefix (literal (dec n) ++ dot ∷ []) address ≡ eqb a n
  whole n h = octet-literal a n [] after_a ha h ∙ and_true (eqb a n)

  two :
      (n : ℕ) (ks : List Class) (t : Bool)
      → n < 256
      → matches_prefix ks after_a ≡ t
      → matches_prefix (literal (dec n) ++ dot ∷ ks) address ≡ (eqb a n && t)
  two n ks t h e = octet-literal a n ks after_a ha h ∙ ap (λ s. eqb a n && s) e

  pair :
      (n m : ℕ)
      → n < 256
      → m < 256
      → matches_prefix (literal (dec n) ++ dot ∷ (literal (dec m) ++ dot ∷ [])) address
        ≡ (eqb a n && (eqb b m && true))
  pair n m h k = two n _ _ h (octet-literal b m [] (octet c rest) hb k)

  triple :
      (n m o : ℕ)
      → n < 256
      → m < 256
      → o < 256
      → matches_prefix
          (literal (dec n) ++ dot ∷ (literal (dec m) ++ dot ∷ (literal (dec o) ++ dot ∷ [])))
          address
        ≡ (eqb a n && (eqb b m && eqb c o))
  triple n m o h k l = two n _ _ h (
      octet-literal b m _ (octet c rest) hb k
      ∙ ap (λ s. eqb b m && s) (octet-literal c o [] rest hc l ∙ and_true (eqb c o)))

  private_v4_octets : is_private_v4 address ≡ is_private_octets a b c
  unfolding is_private_v4
  private_v4_octets =
      simp
        (
          and_true,
          or_false,
          whole 10 (omega arith),
          whole 127 (omega arith),
          whole 0 (omega arith),
          two 172 from_16 _ (omega arith) (second_16 b (octet c rest) hb),
          two 172 from_20 _ (omega arith) (second_20 b (octet c rest) hb),
          two 172 from_30 _ (omega arith) (second_30 b (octet c rest) hb),
          pair 192 168 (omega arith) (omega arith),
          pair 169 254 (omega arith) (omega arith),
          two 100 from_64 _ (omega arith) (second_64 b (octet c rest) hb),
          two 100 from_70 _ (omega arith) (second_70 b (octet c rest) hb),
          two 100 from_100 _ (omega arith) (second_100 b (octet c rest) hb),
          two 100 from_120 _ (omega arith) (second_120 b (octet c rest) hb),
          triple 192 0 0 (omega arith) (omega arith) (omega arith),
          triple 192 0 2 (omega arith) (omega arith) (omega arith),
          two 198 from_18 _ (omega arith) (second_18 b (octet c rest) hb),
          triple 198 51 100 (omega arith) (omega arith) (omega arith),
          triple 203 0 113 (omega arith) (omega arith) (omega arith),
        )
        (ap (λ t. eqb a 10 || (eqb a 127 || t))
          (join_three (eqb a 172) (leb 16 b && leb b 19) (leb 20 b && leb b 29)
              (leb 30 b && leb b 31) _
            ∙ ap₂
                (λ r t.
                  (eqb a 172 && r)
                  || ((eqb a 192 && eqb b 168) || ((eqb a 169 && eqb b 254) || (eqb a 0 || t))))
                (block_172 b)
                (join_four (eqb a 100) (leb 64 b && leb b 69) (leb 70 b && leb b 99)
                    (leb 100 b && leb b 119) (leb 120 b && leb b 127) _
                  ∙ ap₂ (λ r t. (eqb a 100 && r) || t) (shared_100 b)
                      (join_two (eqb a 192) (eqb b 0) (eqb c 0) (eqb c 2) _))))

-- An address as its canonical text.
abbrev pub dotted : ℕ → ℕ → ℕ → ℕ → Text
dotted a b c d = octet a (octet b (octet c (dec d)))

split_on-octet :
    (a : ℕ) (rest : Text) → a < 256 → split_on b'.' (octet a rest) ≡ dec a ∷ split_on b'.' rest
unfolding octet
split_on-octet a rest h = ground arith

split_on-dec : (d : ℕ) → d < 256 → split_on b'.' (dec d) ≡ dec d ∷ []
split_on-dec d h = ground arith

dec-short_number : (a : ℕ) → a < 256 → short_number (dec a) ≡ true
dec-short_number a h = ground arith

-- For every IPv4 address in canonical form, the checks on the text refuse exactly the addresses of
-- the private, loopback, link-local, shared and documentation ranges.
pub is_private_literal-dotted :
    (a b c d : ℕ)
    → a < 256
    → b < 256
    → c < 256
    → d < 256
    → is_private_literal (dotted a b c d) ≡ is_private_octets a b c
unfolding looks_like_ipv4
is_private_literal-dotted a b c d ha hb hc hd =
    simp
      (
        split_on-octet a _ ha,
        split_on-octet b _ hb,
        split_on-octet c _ hc,
        split_on-dec d hd,
        dec-short_number a ha,
        dec-short_number b hb,
        dec-short_number c hc,
        dec-short_number d hd,
      )
      (private_v4_octets a b c (dec d) ha hb hc)
