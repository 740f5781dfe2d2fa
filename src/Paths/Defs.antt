-- ===== src/Paths/Defs.antt =====
-- prepend_string, sub_string, isValidPath, is_unrecoverable and Request_path_init of zookeeper.c.
-- A string is the list of its characters, none of them 0.
use ext_zookeeper.Prelude.{
  ℕ, zero, suc, ◌+◌, ◌-◌, ◌/◌, ◌%◌, Bool, true, false, Option, none, some, List, [], ◌∷◌, ◌++◌,
  ◌&&◌, ◌||◌, not, length, take, drop, get_or, ltb, ◌==◌, if◌then◌else◌,
}
use ext_zookeeper.Recordio.{is_neg}
use ext_zookeeper.Codes.{zok, zbadarguments, zinvalidstate}

abbrev pub slash : ℕ
slash = 47

abbrev pub dot : ℕ
dot = 46

-- The part of zhandle_t that paths depend on.
pub record PathHandle : Type 0 where
  pub chroot : Option (List ℕ)
  pub state : ℕ

-- strcmp(s, t) == 0
abbrev pub same_string : List ℕ → List ℕ → Bool
same_string [] [] = true
same_string [] (d ∷ t) = false
same_string (c ∷ s) [] = false
same_string (c ∷ s) (d ∷ t) = (c == d) && same_string s t

-- `zh` may be null.
unfoldable pub prepend_string : Option PathHandle → List ℕ → List ℕ
prepend_string none client_path = client_path
prepend_string (some zh) client_path = elim zh.chroot [
  | none ↦ client_path
  | some chroot ↦ if length client_path == 1 then chroot else chroot ++ client_path
]

unfoldable pub sub_string : PathHandle → List ℕ → List ℕ
sub_string zh server_path = elim zh.chroot [
  | none ↦ server_path
  | some chroot ↦
      if not (same_string (take (length chroot) server_path) chroot)
      then server_path
      else if length server_path == length chroot
      then slash ∷ []
      else drop (length chroot) server_path
]

-- `flags & ZOO_SEQUENCE`
abbrev pub is_sequence : ℕ → Bool
is_sequence flags = (flags / 2) % 2 == 1

-- `((i + 1 == len) && !(flags & ZOO_SEQUENCE)) || path[i+1] == '/'`
abbrev pub ends_part : List ℕ → ℕ → ℕ → Bool
ends_part path flags i =
    ((i + 1 == length path) && not (is_sequence flags)) || (get_or path (i + 1) 0 == slash)

-- What the body of the loop refuses at `i`, with `lastc` in front of `c`. A character is signed: one
-- from 128 is below 0.
abbrev pub refuses_char : List ℕ → ℕ → ℕ → ℕ → ℕ → Bool
refuses_char path flags i lastc c =
    if c == 0
    then true
    else if (c == slash) && (lastc == slash)
    then true
    else if (c == dot) && (lastc == dot)
    then (get_or path (i - 2) 0 == slash) && ends_part path flags i
    else if c == dot
    then (get_or path (i - 1) 0 == slash) && ends_part path flags i
    else ltb 0 c && ltb c 31

-- `for (; i < len; lastc = path[i], i++)`; `rounds` is len - i.
unfoldable pub check_chars : ℕ → List ℕ → ℕ → ℕ → ℕ → Bool
check_chars zero path flags i lastc = true
check_chars (suc rounds) path flags i lastc =
    if refuses_char path flags i lastc (get_or path i 0)
    then false
    else check_chars rounds path flags (i + 1) (get_or path i 0)

-- A null path is `none`.
unfoldable pub is_valid_path : Option (List ℕ) → ℕ → Bool
is_valid_path none flags = false
is_valid_path (some path) flags =
    if length path == 0
    then false
    else if not (get_or path 0 0 == slash)
    then false
    else if length path == 1
    then true
    else if (get_or path (length path - 1) 0 == slash) && not (is_sequence flags)
    then false
    else check_chars (length path - 1) path flags 1 slash

-- `zh->state < 0`
unfoldable pub is_unrecoverable : PathHandle → ℕ
is_unrecoverable zh = if is_neg zh.state then zinvalidstate else zok

-- The code, and the path of the request.
unfoldable pub request_path_init : Option PathHandle → ℕ → List ℕ → ℕ × List ℕ
request_path_init none flags path = (zbadarguments, prepend_string none path)
request_path_init (some zh) flags path =
    let path_out = prepend_string (some zh) path in
    if not (is_valid_path (some path_out) flags)
    then (zbadarguments, path_out)
    else if not (is_unrecoverable zh == 0)
    then (zinvalidstate, path_out)
    else (zok, path_out)
