-- ===== src/Codec.antt =====
-- `detail::SemiSortCodec` of paired_vlse/include/paired_vacuum_filter.h: the tables that number the
-- descending quadruples of nibbles. An array is a function from its indices; `std::array{}` starts
-- at zero everywhere.
pub mod Laws
use mathlib.Core.List.{flat_map}
use vlse.Base.{
  ℕ, ◌+◌, bit_or, Option, none, some, List, [], ◌∷◌, map, Bool, ◌==◌, if◌then◌else◌, range,
  for_each, u16, ◌<<<◌,
}

pub record SemiSortCodec : Type 0 where
  pub encode : ℕ → ℕ
  pub decode : ℕ → ℕ
  pub index : ℕ

-- `array[at] = value`.
abbrev pub update : (ℕ → ℕ) → ℕ → ℕ → ℕ → ℕ
update array at value i = if i == at then value else array i

-- `(i << 12) | (j << 8) | (k << 4) | l`, as a `uint16_t`.
unfoldable pub plain : ℕ → ℕ → ℕ → ℕ → ℕ
plain i j k l = u16 (bit_or (bit_or (bit_or (i <<< 12) (j <<< 8)) (k <<< 4)) l)

-- The innermost loop's body.
unfoldable pub enter : ℕ → SemiSortCodec → SemiSortCodec
enter p c = record {
  encode = update c.encode p c.index;
  decode = update c.decode c.index p;
  index = u16 (c.index + 1);
}

-- The bound of an inner loop under the counter `n`.
abbrev pub bound : ℕ → ℕ
bound n = if n == 0 then 1 else n + 1

unfoldable pub fill : SemiSortCodec → SemiSortCodec
fill = for_each (range 16) λ i.
    for_each (range (bound i))
      λ j. for_each (range (bound j)) λ k. for_each (range (bound k)) λ l. enter (plain i j k l)

abbrev pub blank : SemiSortCodec
blank = record { encode = λ _. 0; decode = λ _. 0; index = 0 }

-- The constructor; `none` is its `std::logic_error`.
unfoldable pub make_codec : Option SemiSortCodec
make_codec = let c = fill blank in if c.index == 3876 then some c else none

-- The static object that `Codec()` returns.
unfoldable pub codec : SemiSortCodec
codec = fill blank
