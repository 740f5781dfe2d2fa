-- ===== src/Paths/Chroot.antt =====
-- A client's path goes out behind the chroot, and comes back as it was.
use ext_zookeeper.Prelude.{
  ℕ, ◌≡◌, refl, true, false, some, List, [], ◌∷◌, ◌++◌, not, length, take, drop, ◌==◌,
  if◌then◌else◌, arith, Bool-cases, Option-cases, ◌≤◌, sym, ◌∙◌, take_all, inl, inr, length-append,
  take-append_left, drop-append_left,
}
use ext_zookeeper.Paths.Defs.{PathHandle, slash, same_string, prepend_string, sub_string}

eq_self : (n : ℕ) → (n == n) ≡ true
eq_self n = ground arith

same_string_refl : (s : List ℕ) → same_string s s ≡ true
same_string_refl [] = refl
same_string_refl (c ∷ s) = ground (arith, same_string_refl s)

-- A path that the client may hand over: it is not empty, and if it has one character, that is the
-- slash. (With a chroot, any path of one character stands for the chroot.)
pub record IsClientPath (path : List ℕ) : Type 0 where
  pub some_chars : 1 ≤ length path
  pub root : length path ≡ 1 → path ≡ slash ∷ []

-- sub_string behind the test of its chroot.
abbrev stripped : List ℕ → List ℕ → List ℕ
stripped chroot server_path =
    if not (same_string (take (length chroot) server_path) chroot)
    then server_path
    else if length server_path == length chroot
    then slash ∷ []
    else drop (length chroot) server_path

root_back : (chroot : List ℕ) → stripped chroot chroot ≡ slash ∷ []
root_back chroot = rw (
  take_all chroot (length chroot) (omega arith),
  same_string_refl chroot,
  eq_self (length chroot),
)

path_back : (chroot path : List ℕ) → 1 ≤ length path → stripped chroot (chroot ++ path) ≡ path
path_back chroot path h =
    rw (take-append_left chroot path (length chroot) refl, same_string_refl chroot, longer)
      (drop-append_left chroot path (length chroot) refl)
  where
    longer : (length (chroot ++ path) == length chroot) ≡ false
    longer = ground (arith, length-append chroot path)

-- Stripping the chroot undoes putting it in front, whatever the chroot is, for a path that is not
-- empty and has more than one character or is the root.
pub sub_string-prepend_string :
    (zh : PathHandle) (path : List ℕ)
    → IsClientPath path
    → sub_string zh (prepend_string (some zh) path) ≡ path
unfolding prepend_string sub_string
sub_string-prepend_string zh path v = elim (Option-cases zh.chroot) [
  | inl e ↦ rw e
  | inr (chroot, e) ↦ elim (Bool-cases (length path == 1)) [
    | inl one ↦ rw (e, one) (root_back chroot ∙ sym (v.root (ground arith)))
    | inr more ↦ rw (e, more) (path_back chroot path v.some_chars)
  ]
]
