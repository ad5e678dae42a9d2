-- ===== src/Tests/KnownData.antt =====
-- The tests of src/servers/telemetry.rs.
use pocket_relay_client_shar.Prelude.{ℕ, ◌≡◌, refl, Bool, true, List, [], ◌∷◌, ◌++◌}
use pocket_relay_client_shar.Prelude.Text.{code_points, text_eq}
use pocket_relay_client_shar.Telemetry.{tlm3, tlm3_key, xor_cipher}

abbrev test_data : List ℕ
test_data =
    code_points "123456789:;<=>?@ABCDEFGHIJKLMNOPQRSTUVWXYZ["
    ++ (92 ∷ [])
    ++ code_points "]^_`abcdefghijklmnopqrstuvwxyz{|}~"

abbrev test_xor_cipher : Bool
test_xor_cipher =
    let enc_data = xor_cipher test_data tlm3_key in
    let dec_data = xor_cipher enc_data tlm3_key in text_eq dec_data test_data

xor_cipher_passes : test_xor_cipher ≡ true
unfolding xor_cipher text_eq
xor_cipher_passes = refl

abbrev enc_data : List ℕ
enc_data =
    100 ∷ 88 ∷ 85 ∷ 144 ∷ 68 ∷ 64 ∷ 49 ∷ 50 ∷ 71 ∷ 141 ∷ 82 ∷ 67 ∷ 144 ∷ 82 ∷ 81 ∷ 83 ∷ 91 ∷ 146
    ∷ 91 ∷ 65 ∷ 98 ∷ 60 ∷ 59 ∷ 45 ∷ 67 ∷ 54 ∷ 107 ∷ 135 ∷ 59 ∷ 74 ∷ 111 ∷ 56 ∷ 60 ∷ 50 ∷ 91 ∷ 30
    ∷ 76 ∷ 135 ∷ 148 ∷ 29 ∷ 43 ∷ 47 ∷ 55 ∷ 77 ∷ 84 ∷ 133 ∷ 128 ∷ 71 ∷ 78 ∷ 189 ∷ 55 ∷ 56 ∷ 73 ∷ 30
    ∷ 100 ∷ 88 ∷ 85 ∷ 144 ∷ 70 ∷ 54 ∷ 51 ∷ 91 ∷ 69 ∷ 27 ∷ 89 ∷ 67 ∷ 144 ∷ 82 ∷ 81 ∷ 83 ∷ 89 ∷ 147
    ∷ 70 ∷ 33 ∷ 110 ∷ 63 ∷ 58 ∷ 86 ∷ 46 ∷ 41 ∷ 111 ∷ 142 ∷ 71 ∷ 33 ∷ 99 ∷ 59 ∷ 60 ∷ 90 ∷ 22 ∷ 141
    ∷ 82 ∷ 27 ∷ 78 ∷ 141 ∷ 80 ∷ 80 ∷ 87 ∷ 93 ∷ 22 ∷ 90 ∷ 95 ∷ 22 ∷ 75 ∷ 68 ∷ 95 ∷ 138 ∷ 22 ∷ 90 ∷ 53
    ∷ 85 ∷ 84 ∷ 145 ∷ 82 ∷ 134 ∷ 134 ∷ 128 ∷ 137 ∷ 29 ∷ 90 ∷ 85 ∷ 83 ∷ 135 ∷ 146 ∷ 144 ∷ 86 ∷ 80
    ∷ 138 ∷ 25 ∷ 68 ∷ 25 ∷ 128 ∷ 54 ∷ 47 ∷ 51 ∷ 94 ∷ 144 ∷ 104 ∷ []

abbrev expected : List ℕ
expected =
    code_points "000002DF/-;00000022/BOOT/SESS/OLNG/vlng=INT&tlng=INT,000002DF/-;"
    ++ code_points "00000023/ONLN/BLAZ/DCON/berr=-2146631680&fsta=11&tsta=3&sess=pcwdjtOCVpD"
    ++ (0 ∷ [])

abbrev test_known_data : Bool
test_known_data = text_eq (xor_cipher enc_data tlm3_key) expected

known_data_passes : test_known_data ≡ true
unfolding xor_cipher text_eq
known_data_passes = refl

abbrev test_tlm3_line : Bool
test_tlm3_line = text_eq (tlm3 (64 ∷ 56 ∷ 97 ∷ 45 ∷ enc_data)) expected

tlm3_line_passes : test_tlm3_line ≡ true
unfolding tlm3 text_eq
tlm3_line_passes = refl
