-- ===== src/Machines/Code.antt =====
-- The instruction words of the builtin machines (vm/src/machines.rs).
use nexus_zkvm.Base.{ℕ, List, [], ◌∷◌}

abbrev pub fib31_code : List ℕ
fib31_code =
    0x0010_0093 ∷ 0x0000_8133 ∷ 0x0011_01b3 ∷ 0x0021_8233 ∷ 0x0032_02b3 ∷ 0x0042_8333 ∷ 0x0053_03b3
    ∷ 0x0063_8433 ∷ 0x0074_04b3 ∷ 0x0084_8533 ∷ 0x0095_05b3 ∷ 0x00a5_8633 ∷ 0x00b6_06b3
    ∷ 0x00c6_8733 ∷ 0x00d7_07b3 ∷ 0x00e7_8833 ∷ 0x00f8_08b3 ∷ 0x0108_8933 ∷ 0x0119_09b3
    ∷ 0x0129_8a33 ∷ 0x013a_0ab3 ∷ 0x014a_8b33 ∷ 0x015b_0bb3 ∷ 0x016b_8c33 ∷ 0x017c_0cb3
    ∷ 0x018c_8d33 ∷ 0x019d_0db3 ∷ 0x01ad_8e33 ∷ 0x01be_0eb3 ∷ 0x01ce_8f33 ∷ 0x01df_0fb3
    ∷ 0xc000_1073 ∷ []

abbrev pub bitop_code : List ℕ
bitop_code =
    0xaaaa_b0b7 ∷ 0xfaa0_8093 ∷ 0x5555_5137 ∷ 0x5551_0113 ∷ 0x0020_f1b3 ∷ 0x0ff0_f213 ∷ 0x0020_e2b3
    ∷ 0x0ff0_e313 ∷ 0x0020_c3b3 ∷ 0x0ff0_c413 ∷ 0xc000_1073 ∷ []

abbrev pub branch_code : List ℕ
branch_code =
    0x0010_0093 ∷ 0x0020_0113 ∷ 0x0020_8663 ∷ 0x0010_8463 ∷ 0xc000_1073 ∷ 0x0010_9663 ∷ 0x0020_9463
    ∷ 0xc000_1073 ∷ 0xfff0_0193 ∷ 0x0011_4863 ∷ 0x0030_c663 ∷ 0x0011_c463 ∷ 0xc000_1073
    ∷ 0x0001_d863 ∷ 0x0020_d663 ∷ 0x0031_5463 ∷ 0xc000_1073 ∷ 0x0011_6863 ∷ 0x0001_e663
    ∷ 0x0031_6463 ∷ 0xc000_1073 ∷ 0x0030_7863 ∷ 0x0031_7663 ∷ 0x0031_f463 ∷ 0xc000_1073
    ∷ 0x0010_0513 ∷ 0x0010_0593 ∷ 0xc000_1073 ∷ []

abbrev pub jump_code : List ℕ
jump_code =
    0x0080_00ef ∷ 0xc000_1073 ∷ 0x0080_00ef ∷ 0xc000_1073 ∷ 0x0080_016f ∷ 0xc000_1073 ∷ 0x0000_0097
    ∷ 0x00c0_81e7 ∷ 0xc000_1073 ∷ 0xfe1f_f06f ∷ 0xc000_1073 ∷ []

abbrev pub ldst_code : List ℕ
ldst_code =
    0xfff0_0293 ∷ 0x0050_2223 ∷ 0x0050_00a3 ∷ 0xfe50_2e23 ∷ 0x0040_2083 ∷ 0xffc0_2103 ∷ 0x0010_0183
    ∷ 0x0010_4203 ∷ 0xc000_1073 ∷ []

abbrev pub shift_code : List ℕ
shift_code =
    0xfaaa_b0b7 ∷ 0xaaa0_8093 ∷ 0x0050_0113 ∷ 0x0020_91b3 ∷ 0x0020_d233 ∷ 0x4020_d2b3 ∷ 0x0000_9313
    ∷ 0x0010_9393 ∷ 0x00a0_9413 ∷ 0x01f0_9493 ∷ 0x0000_d513 ∷ 0x0010_d593 ∷ 0x00a0_d613
    ∷ 0x01f0_d693 ∷ 0x4000_d713 ∷ 0x4010_d793 ∷ 0x40a0_d813 ∷ 0x41f0_d893 ∷ 0xc000_1073 ∷ []

abbrev pub sub_code : List ℕ
sub_code =
    0x0010_0093 ∷ 0xfff0_0113 ∷ 0x4000_8233 ∷ 0x4020_8233 ∷ 0x4011_0233 ∷ 0x0000_a233 ∷ 0x0402_1463
    ∷ 0x0010_2233 ∷ 0x0402_0063 ∷ 0x0011_2233 ∷ 0x0202_0c63 ∷ 0x0011_3233 ∷ 0x0202_1863
    ∷ 0x0011_2213 ∷ 0x0202_0463 ∷ 0xffd1_2213 ∷ 0x0202_1063 ∷ 0x0011_3213 ∷ 0x0002_1c63
    ∷ 0xffd1_3213 ∷ 0x0002_1863 ∷ 0xfff0_b213 ∷ 0x0002_0463 ∷ 0x0010_0513 ∷ 0xc000_1073 ∷ []

abbrev pub priv_code : List ℕ
priv_code = 0x0029_0913 ∷ 0x0000_01f3 ∷ 0x0000_0273 ∷ 0x0000_02f3 ∷ 0xc000_1073 ∷ []
