-- ===== src/Realm/CharacterName/Tests.antt =====
-- Names of one and of two code points, and bytes that are no name.
use realm_mesh.Prelude.{ℕ, ◌≡◌, ◌↔◌, refl, true, false, List, [], ◌∷◌, ◌++◌, some, codes, arith}
use realm_mesh.Realm.CharacterName.{next_code_point, is_valid_character_name}
use realm_mesh.Realm.CharacterName.Utf8.{
  encode, next_code_point-encode, IsScalar, next_code_point_shortest,
}
use realm_mesh.Realm.CharacterName.Names.{encode_all, IsName, is_valid_character_name_iff}

two_code_points : is_valid_character_name (65 ∷ 228 ∷ 184 ∷ 173 ∷ []) ≡ true
unfolding is_valid_character_name
two_code_points = refl

overlong : is_valid_character_name (192 ∷ 128 ∷ []) ≡ false
unfolding is_valid_character_name
overlong = refl

blank_end : is_valid_character_name (codes "a ") ≡ false
unfolding is_valid_character_name
blank_end = refl

next_code_point-encode_example : next_code_point (encode 20_013 ++ 65 ∷ []) ≡ some (20_013, 65 ∷ [])
next_code_point-encode_example = next_code_point-encode 20_013 (65 ∷ []) (omega arith, refl)

three_bytes_read : next_code_point (228 ∷ 184 ∷ 173 ∷ 65 ∷ []) ≡ some (20_013, 65 ∷ [])
unfolding next_code_point
three_bytes_read = refl

next_code_point_shortest_example :
    (228 ∷ 184 ∷ 173 ∷ 65 ∷ [] ≡ encode 20_013 ++ 65 ∷ []) × IsScalar 20_013
next_code_point_shortest_example =
    next_code_point_shortest (228 ∷ 184 ∷ 173 ∷ 65 ∷ []) 20_013 (65 ∷ []) three_bytes_read

is_valid_character_name_iff_example :
    (is_valid_character_name (codes "a ") ≡ true)
    ↔ ((values : List ℕ) × (codes "a " ≡ encode_all values) × IsName values)
is_valid_character_name_iff_example = is_valid_character_name_iff (codes "a ")
