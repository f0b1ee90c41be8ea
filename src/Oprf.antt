-- ===== src/Oprf.antt =====
-- The OPRF of common/src/ntl_oprf.cpp over common/include/ntl_oprf.h. The integers of NTL that
-- occur are natural numbers; `PowerMod`, `InvMod` and `ProbPrime` of NTL, SHAKE256 and the random
-- pool of Crypto++ are a record of operations, and so are the three group parameters, which
-- `HexToZZ` reads once. `rejections` bounds the loops that draw until a value is accepted.
pub mod Powers
pub mod Draws
pub mod Laws
pub mod Parameters
use vlse.Base.{
  ℕ, zero, suc, ◌+◌, ◌-◌, ◌*◌, ◌/◌, ◌%◌, ◌^◌, Bool, true, false, if◌then◌else◌, not, ◌&&◌, ◌||◌,
  ◌==◌, ltb, leb, List, [], ◌∷◌, ◌++◌, replicate, get_or, set, range, for_each, bit_and, u8, u32,
  ◌<<<◌, ◌>>>◌, Result, ok, throw, logic_error, invalid_argument, out_of_fuel, ◌>>=◌, codes,
}

abbrev pub group_element_bytes : ℕ
group_element_bytes = 384

abbrev pub scalar_bytes : ℕ
scalar_bytes = 32

-- `RequestBytes` and `ResponseBytes`.
abbrev pub request_bytes : ℕ
request_bytes = group_element_bytes

abbrev pub response_bytes : ℕ
response_bytes = group_element_bytes

abbrev pub communication_bytes_per_evaluation : ℕ
communication_bytes_per_evaluation = request_bytes + response_bytes

-- Hexadecimal digits as characters' codes.
unfoldable pub hex_digits : ℕ → List ℕ → Result ℕ
hex_digits value [] = ok value
hex_digits value (cursor ∷ hex) =
    let upper = hex_digits ((value <<< 4) + (cursor - 65) + 10) hex in
    let lower = hex_digits ((value <<< 4) + (cursor - 97) + 10) hex in
    let digit = hex_digits ((value <<< 4) + (cursor - 48)) hex in
    if leb 48 cursor && leb cursor 57
    then digit
    else if leb 65 cursor && leb cursor 70
    then upper
    else if leb 97 cursor && leb cursor 102
    then lower
    else throw logic_error

unfoldable pub hex_to_zz : List ℕ → Result ℕ
hex_to_zz hex = hex_digits 0 hex

-- The loop of `FromBigEndian` from the value read so far.
unfoldable pub from_big_endian_after : ℕ → List ℕ → ℕ
from_big_endian_after value [] = value
from_big_endian_after value (byte ∷ input) = from_big_endian_after ((value <<< 8) + byte) input

unfoldable pub from_big_endian : List ℕ → ℕ
from_big_endian input = from_big_endian_after 0 input

-- The loop of `ToBigEndian` on `size` bytes: the array's bytes and what is left of the value. Each
-- round fills the byte before those written.
unfoldable pub big_endian_bytes : ℕ → ℕ → List ℕ → List ℕ × ℕ
big_endian_bytes zero value written = (written, value)
big_endian_bytes (suc size) value written =
    big_endian_bytes size (value >>> 8) (u8 (bit_and value 0xff) ∷ written)

-- The parameters of the group, and the code of the libraries.
pub record Group : Type 1 where
  pub modulus : ℕ
  pub subgroup_order : ℕ
  pub generator : ℕ
  pub power_mod : ℕ → ℕ → ℕ → ℕ
  pub inv_mod : ℕ → ℕ → ℕ
  pub prob_prime : ℕ → ℕ → Bool
  pub num_bits : ℕ → ℕ
  -- SHAKE256 of a message, with so many bytes of output.
  pub shake256 : List ℕ → ℕ → List ℕ
  pub Pool : Type 0
  pub generate_block : ℕ → Pool → List ℕ × Pool
  pub rejections : ℕ

-- `kDomain` in `HashToGroup`.
abbrev pub group_domain : List ℕ
group_domain = codes "VLSE/LSE-H2G-FFC3072Q256-v1"

pub record PreparedBlind : Type 0 where
  pub scalar : ℕ
  pub inverse : ℕ
  pub consumed : Bool

module _ (g : Group) where
  open g use {
    modulus, subgroup_order, generator, power_mod, inv_mod, prob_prime, num_bits, shake256, Pool,
    generate_block,
  }

  unfoldable pub to_big_endian : ℕ → Result (List ℕ)
  to_big_endian input =
      if leb modulus input
      then throw invalid_argument
      else let (output, value) = big_endian_bytes group_element_bytes input [] in
        if not (value == 0) then throw logic_error else ok output

  unfoldable pub random_scalar : ℕ → Pool → Result (ℕ × Pool)
  random_scalar zero pool = throw out_of_fuel
  random_scalar (suc fuel) pool =
      let (bytes, next) = generate_block scalar_bytes pool in
      let again = random_scalar fuel next in
      let scalar = from_big_endian bytes in
      if ltb 0 scalar && ltb scalar subgroup_order then ok (scalar, next) else again

  abbrev pub cofactor : ℕ
  cofactor = (modulus - 1) / subgroup_order

  -- `candidate` of `HashToGroup` at a counter.
  unfoldable pub hash_candidate : ℕ → List ℕ → ℕ
  hash_candidate counter input =
      let encoded_counter =
        u8 (counter >>> 24) ∷ u8 (counter >>> 16) ∷ u8 (counter >>> 8) ∷ u8 counter ∷ [] in
      let wide =
        shake256 (group_domain ++ ((0 ∷ []) ++ (input ++ encoded_counter)))
          (group_element_bytes + 16) in
      from_big_endian wide % (modulus - 3) + 2

  -- The loop of `HashToGroup` at a counter.
  unfoldable pub hash_to_group_from : ℕ → ℕ → List ℕ → Result ℕ
  hash_to_group_from zero counter input = throw out_of_fuel
  hash_to_group_from (suc fuel) counter input =
      let element = power_mod (hash_candidate counter input) cofactor modulus in
      let again = hash_to_group_from fuel (u32 (counter + 1)) input in
      if not (element == 1) then ok element else again

  unfoldable pub hash_to_group : List ℕ → Result ℕ
  hash_to_group input = hash_to_group_from g.rejections 0 input

  unfoldable pub validate : Bool
  validate =
      num_bits modulus == 3072
      && (num_bits subgroup_order == 256
          && ((modulus - 1) % subgroup_order == 0
              && (cofactor * subgroup_order == modulus - 1
                  && (prob_prime modulus 32
                      && (prob_prime subgroup_order 32
                          && (ltb 1 generator
                              && (ltb generator modulus
                                  && power_mod generator subgroup_order modulus == 1)))))))

  -- `SecretKey(ZZ)`, with the scalar as the key.
  unfoldable pub secret_key : ℕ → Result ℕ
  secret_key scalar =
      if scalar == 0 || leb subgroup_order scalar then throw invalid_argument else ok scalar

  -- `SecretKey()`.
  unfoldable pub random_secret_key : Pool → Result (ℕ × Pool)
  random_secret_key pool = random_scalar g.rejections pool

  unfoldable pub scalar_bits : PreparedBlind → ℕ
  scalar_bits prepared = num_bits prepared.scalar

  unfoldable pub inverse_bits : PreparedBlind → ℕ
  inverse_bits prepared = num_bits prepared.inverse

  unfoldable pub direct_evaluate : ℕ → List ℕ → Result (List ℕ)
  direct_evaluate key input = do
    element ← hash_to_group input
    to_big_endian (power_mod element key modulus)

  unfoldable pub prepare_blind : Pool → Result (PreparedBlind × Pool)
  prepare_blind pool = do
    drawn ← random_scalar g.rejections pool
    ok (
      record { scalar = drawn.0; inverse = inv_mod drawn.0 subgroup_order; consumed = false },
      drawn.1,
    )

  unfoldable pub prepare_blind_pool : ℕ → Pool → Result (List PreparedBlind × Pool)
  prepare_blind_pool zero pool = ok ([], pool)
  prepare_blind_pool (suc count) pool = do
    first ← prepare_blind pool
    rest ← prepare_blind_pool count first.1
    ok (first.0 ∷ rest.0, rest.1)

  -- The blind after the call stands beside the result, which a reused blind has too.
  unfoldable pub evaluate_prepared : ℕ → List ℕ → PreparedBlind → PreparedBlind × Result (List ℕ)
  evaluate_prepared key input prepared =
      if prepared.consumed then (prepared, throw logic_error) else (
        record prepared { consumed = true },
        do
          element ← hash_to_group input
          let request = power_mod element prepared.scalar modulus
          let response = power_mod request key modulus
          let unblinded = power_mod response prepared.inverse modulus
          to_big_endian unblinded,
      )
