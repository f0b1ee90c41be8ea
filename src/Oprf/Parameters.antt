-- ===== src/Oprf/Parameters.antt =====
-- The group of common/src/ntl_oprf.cpp: the three hexadecimal constants and what
-- `PublicParameters::Validate` says of them.
use vlse.Base.{
  ℕ, suc, ◌^◌, ◌≤◌, ◌<◌, ◌≡◌, refl, sym, ◌∙◌, arith, ◌&&◌, ◌==◌, List, ◌++◌, Result, ok, codes,
}
use vlse.Oprf.{Group, hex_to_zz, hex_digits, validate}

abbrev pub modulus_hex : List ℕ
modulus_hex =
    codes "CF8CB8FB77EBBFC71AA88CB93DCFB77868DC881AB89F116B"
    ++ (codes "4BAB48285D47F342B5A2113777D2E72112BFF2A598985FBE"
        ++ (codes "610F98542E0A10E5B4DE6B6FE0F1DBF69A9DBFADAC9DF2"
            ++ (codes "13BDF45A74784BA1B2063260B32FCAA330BB48DCB4BB14EC"
                ++ (codes "37C805206A39DD33E3BCAD88F17F136310104631072B11D0"
                    ++ (codes "3F4C899E956809987017B1DB1E5958F2B30AD48477E2FC88"
                        ++ (codes "758B87076C6BA8BD5580DBB852471AD747923FEF63420A2F"
                            ++ (codes "F07E7D2805E813A60DA48D03D3208FC385EF86671CB14413"
                                ++ (codes "F0138171D97120C5A7EE9987DEAC5A02723B0D4F62B38B14"
                                    ++ (codes "5A0259E140619A998C484EE214F315EEBF071B9311BDE383C"
                                        ++ (codes "0C76B669540E727B96B2A3F5F839B2F9B478979E97A5E6B"
                                            ++ (codes
                                                  "13DDB3CBFE82F503D814860E8B340A8C42BDF69512826D02"
                                                ++ (codes
                                                      "511CE2997EC0422F059A82EAE932B52E77DEE323124BB90A4"
                                                    ++ (codes
                                                          "C149D726674696966759DFDB90461A4107884153D79B47806"
                                                        ++ (codes
                                                            "E21972EF88A110228576114D0A504EE676A4E98C67C780B9"
                                                            ++ (codes
                                                            "919A37D6CD25265CCEC1C79A157AC7AE70282AFCBB36D019")))))))))))))))

abbrev pub subgroup_order_hex : List ℕ
subgroup_order_hex =
    codes "F5A1ED31B451B36BB7AB68BDECC471D3" ++ (codes "D4F5778F0C0A8D79D82EDABA5B2761BD")

abbrev pub generator_hex : List ℕ
generator_hex =
    codes "89327682373254B2B2CAECF4EA2A70FEEAD943FC23887EC1"
    ++ (codes "CA2607EEA5B7A139B7ED3A38042DEE4440A85370427761C4"
        ++ (codes "B76293B0610866B1971889F1A085B2600D48A0C030854DDF"
            ++ (codes "C5AEC92A2997076B8AB532531FCCF86683111DD8C1F0B7A3"
                ++ (codes "891D5CC1ECEA281FF25A0CD977D8FDAE5E0CB8B2869EC9A"
                    ++ (codes "C49C6A462E038B0B28F9CABBA59255BA6EF259460D79EEB0"
                        ++ (codes "2E70EC5773E625DA5A98AE83310DD6D4FD04874CB9F1EEFE"
                            ++ (codes "81247C6165E0989C12F2B8AE70CA8F3E89701F87977730A"
                                ++ (codes "552B4A77DEDC64E5CE2BCEF0F81F66188D00E67B8E464A7"
                                    ++ (codes "E868B10DDBD70FFF4F890BC5D84367D6AD8E1C15FDAC383"
                                        ++ (codes "D935DD20EC38649848480354049DE3A373813C1618741C09"
                                            ++ (codes
                                                  "55CF7BB325A6158AA56DD4ACA6B40ABDE304EB283A0830AB"
                                                ++ (codes
                                                      "7E3315FAB03CEFE2591216FDAECE7C9F01D11084376254A2"
                                                    ++ (codes
                                                          "7B6F4CAE9286E7958BF9EEE40645A7D422CE46015C53435A"
                                                        ++ (codes
                                                            "D2D46D5D2EA424DFC83912B39D1AC9113583A85CA7743EF"
                                                            ++ (codes
                                                            "CB7AAAB03A3A52A9DDDF51449229BA8CE04A5B0870DBE9068F20D")))))))))))))))

-- `PublicParameters::Modulus`, `PublicParameters::SubgroupOrder` and
-- `PublicParameters::Generator`.
unfoldable pub read_modulus : Result ℕ
read_modulus = hex_to_zz modulus_hex

unfoldable pub read_subgroup_order : Result ℕ
read_subgroup_order = hex_to_zz subgroup_order_hex

unfoldable pub read_generator : Result ℕ
read_generator = hex_to_zz generator_hex

abbrev pub modulus_number : ℕ
modulus_number =
    0xCF8CB8FB77EBBFC71AA88CB93DCFB77868DC881AB89F116B4BAB48285D47F342B5A2113777D2E72112BFF2A598985FBE610F98542E0A10E5B4DE6B6FE0F1DBF69A9DBFADAC9DF213BDF45A74784BA1B2063260B32FCAA330BB48DCB4BB14EC37C805206A39DD33E3BCAD88F17F136310104631072B11D03F4C899E956809987017B1DB1E5958F2B30AD48477E2FC88758B87076C6BA8BD5580DBB852471AD747923FEF63420A2FF07E7D2805E813A60DA48D03D3208FC385EF86671CB14413F0138171D97120C5A7EE9987DEAC5A02723B0D4F62B38B145A0259E140619A998C484EE214F315EEBF071B9311BDE383C0C76B669540E727B96B2A3F5F839B2F9B478979E97A5E6B13DDB3CBFE82F503D814860E8B340A8C42BDF69512826D02511CE2997EC0422F059A82EAE932B52E77DEE323124BB90A4C149D726674696966759DFDB90461A4107884153D79B47806E21972EF88A110228576114D0A504EE676A4E98C67C780B9919A37D6CD25265CCEC1C79A157AC7AE70282AFCBB36D019

abbrev pub subgroup_order_number : ℕ
subgroup_order_number = 0xF5A1ED31B451B36BB7AB68BDECC471D3D4F5778F0C0A8D79D82EDABA5B2761BD

abbrev pub generator_number : ℕ
generator_number =
    0x89327682373254B2B2CAECF4EA2A70FEEAD943FC23887EC1CA2607EEA5B7A139B7ED3A38042DEE4440A85370427761C4B76293B0610866B1971889F1A085B2600D48A0C030854DDFC5AEC92A2997076B8AB532531FCCF86683111DD8C1F0B7A3891D5CC1ECEA281FF25A0CD977D8FDAE5E0CB8B2869EC9AC49C6A462E038B0B28F9CABBA59255BA6EF259460D79EEB02E70EC5773E625DA5A98AE83310DD6D4FD04874CB9F1EEFE81247C6165E0989C12F2B8AE70CA8F3E89701F87977730A552B4A77DEDC64E5CE2BCEF0F81F66188D00E67B8E464A7E868B10DDBD70FFF4F890BC5D84367D6AD8E1C15FDAC383D935DD20EC38649848480354049DE3A373813C1618741C0955CF7BB325A6158AA56DD4ACA6B40ABDE304EB283A0830AB7E3315FAB03CEFE2591216FDAECE7C9F01D11084376254A27B6F4CAE9286E7958BF9EEE40645A7D422CE46015C53435AD2D46D5D2EA424DFC83912B39D1AC9113583A85CA7743EFCB7AAAB03A3A52A9DDDF51449229BA8CE04A5B0870DBE9068F20D

pub read_modulus-eq : read_modulus ≡ ok modulus_number
unfolding read_modulus hex_to_zz hex_digits
read_modulus-eq = refl

pub read_subgroup_order-eq : read_subgroup_order ≡ ok subgroup_order_number
unfolding read_subgroup_order hex_to_zz hex_digits
read_subgroup_order-eq = refl

pub read_generator-eq : read_generator ≡ ok generator_number
unfolding read_generator hex_to_zz hex_digits
read_generator-eq = refl

-- In the group whose parameters are the three hexadecimal constants of the source, with a bit count
-- that is one for every number, `Validate` returns whether the two primality tests pass and the
-- generator raised to the subgroup order is 1: the bit lengths, the divisibility and the bounds
-- hold for these constants.
pub validate-eq :
    (g : Group)
    → ((n k : ℕ) → 2 ^ k ≤ n → n < 2 ^ suc k → g.num_bits n ≡ suc k)
    → read_modulus ≡ ok g.modulus
    → read_subgroup_order ≡ ok g.subgroup_order
    → read_generator ≡ ok g.generator
    → validate g ≡ (
        g.prob_prime g.modulus 32
        && (g.prob_prime g.subgroup_order 32
            && g.power_mod g.generator g.subgroup_order g.modulus == 1))
unfolding validate
validate-eq g sizes modulus order generator =
    let at_modulus : g.modulus ≡ modulus_number =
      (let e : ok g.modulus ≡ ok modulus_number = sym modulus ∙ read_modulus-eq in cc) in
    let at_order : g.subgroup_order ≡ subgroup_order_number =
      (let e : ok g.subgroup_order ≡ ok subgroup_order_number =
          sym order ∙ read_subgroup_order-eq in
        cc) in
    let at_generator : g.generator ≡ generator_number =
      (let e : ok g.generator ≡ ok generator_number = sym generator ∙ read_generator-eq in cc) in
    let modulus_bits : g.num_bits modulus_number ≡ 3072 =
      sizes modulus_number 3071 (omega arith) (omega arith) in
    let order_bits : g.num_bits subgroup_order_number ≡ 256 =
      sizes subgroup_order_number 255 (omega arith) (omega arith) in
    rw (at_modulus, at_order, at_generator, modulus_bits, order_bits) refl
