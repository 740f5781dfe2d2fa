-- ===== src/Tests/PathRuns.antt =====
-- Paths of src/zk/zookeeper.c.
use ext_zookeeper.Prelude.{ℕ, ◌≡◌, ◌↔◌, true, some, List, [], ◌∷◌, arith}
use ext_zookeeper.Paths.{PathHandle, prepend_string, sub_string, is_valid_path, request_path_init}
use ext_zookeeper.Paths.Chroot.{IsClientPath, sub_string-prepend_string}
use ext_zookeeper.Paths.Checks.{IsPath, is_valid_path_iff}
use ext_zookeeper.Paths.Requests.{Outcome, request_path_init-Outcome}

-- The chroot "/a", and the path "/b".
abbrev rooted : PathHandle
rooted = record { chroot = some (47 ∷ 97 ∷ []); state = 3 }

abbrev path_b : List ℕ
path_b = 47 ∷ 98 ∷ []

path_b-IsClientPath : IsClientPath path_b
path_b-IsClientPath = record { some_chars = omega arith; root = λ h. absurd (omega arith) }

is_valid_path_iff_example : (is_valid_path (some path_b) 0 ≡ true) ↔ IsPath path_b 0
is_valid_path_iff_example = is_valid_path_iff path_b 0

request_path_init-Outcome_example :
    Outcome rooted 0 path_b (request_path_init (some rooted) 0 path_b)
request_path_init-Outcome_example = request_path_init-Outcome rooted 0 path_b

sub_string-prepend_string_example : sub_string rooted (prepend_string (some rooted) path_b) ≡ path_b
sub_string-prepend_string_example = sub_string-prepend_string rooted path_b path_b-IsClientPath
