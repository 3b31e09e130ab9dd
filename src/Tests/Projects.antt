-- ===== src/Tests/Projects.antt =====
-- internal/config/projectid.go on small paths, with a stand-in for SHA-256.
use ateam.Prelude.{◌≡◌, refl, ◌≤◌, arith, Bytes, codes, length, any, [], ◌∷◌, ◌==◌, false, ◌++◌}
use ateam.Config.ProjectId.{
  encode, runes_from, path_to_project_id, project_id_to_path, max_project_id_len,
}
use ateam.Config.ProjectId.RoundTrip.{
  project_id_to_path-path_to_project_id, path_to_project_id-one_name, path_to_project_id-collides,
  IsUtf8,
}

abbrev sha : Bytes → Bytes
sha s = codes "digest"

abbrev project : Bytes
project = codes "team/my_app"

project-IsUtf8 : IsUtf8 project
unfolding runes_from
project-IsUtf8 = refl

-- 0xff starts no sequence, 0xc3 0xa9 is one.
latin : encode (255 ∷ (195 ∷ (169 ∷ []))) ≡ 239 ∷ (191 ∷ (189 ∷ (195 ∷ (169 ∷ []))))
unfolding encode
latin = refl

project-short : length (encode project) ≤ max_project_id_len
unfolding encode
project-short = omega arith

project_id_to_path-path_to_project_id_example :
    project_id_to_path (path_to_project_id sha project) ≡ project
project_id_to_path-path_to_project_id_example =
    project_id_to_path-path_to_project_id sha project project-IsUtf8 refl project-short

path_to_project_id-one_name_example :
    (length (path_to_project_id sha project) ≤ max_project_id_len)
    × (any (λ c. c == 47) (path_to_project_id sha project) ≡ false)
path_to_project_id-one_name_example = path_to_project_id-one_name sha project

collision-short : length (encode (codes "a" ++ (codes "_/" ++ codes "b"))) ≤ max_project_id_len
unfolding encode
collision-short = omega arith

before-IsUtf8 : IsUtf8 (codes "a" ++ (codes "_/" ++ codes "b"))
unfolding runes_from
before-IsUtf8 = refl

behind-IsUtf8 : IsUtf8 (codes "a" ++ (codes "/_" ++ codes "b"))
unfolding runes_from
behind-IsUtf8 = refl

path_to_project_id-collides_example :
    path_to_project_id sha (codes "a" ++ (codes "_/" ++ codes "b"))
    ≡ path_to_project_id sha (codes "a" ++ (codes "/_" ++ codes "b"))
path_to_project_id-collides_example =
    path_to_project_id-collides sha (codes "a") (codes "b") before-IsUtf8 behind-IsUtf8
      collision-short
