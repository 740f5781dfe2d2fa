-- ===== src/Recordio/Defs.antt =====
-- struct buff_struct of recordio.c, the results of its functions, and their memory accesses.
use ext_zookeeper.Prelude.{
  ℕ, ◌+◌, Option, none, some, List, ◌++◌, length, take, drop, leb, if◌then◌else◌,
}

pub record BuffStruct : Type 0 where
  pub len : ℕ
  pub off : ℕ
  pub buffer : Option (List ℕ)

-- The errnos that recordio.c returns.
pub data Errno : Type 0 where
  enomem e2big einval : Errno

-- A return code with what the function hands back: `good` is rc == 0.
pub data Rc {ℓ} (A : Type ℓ) : Type ℓ where
  good : A → Rc A
  fail : Errno → Rc A

-- `none` is undefined behaviour.
abbrev pub Archive : Type 0 → Type 0
Archive A = BuffStruct → Option (Rc A × BuffStruct)

-- `rc = rc ? rc : next`: the next call is made only after success.
abbrev pub next :
    {A B : Type 0} → (A → Archive B) → Option (Rc A × BuffStruct) → Option (Rc B × BuffStruct)
next f none = none
next f (some (good a, s)) = f a s
next f (some (fail e, s)) = some (fail e, s)

infixl 5 ◌>>=◌ ◌>>◌
abbrev pub ◌>>=◌ : {A B : Type 0} → Archive A → (A → Archive B) → Archive B
◌>>=◌ m f s = next f (m s)

abbrev pub ◌>>◌ : {B : Type 0} → Archive (Unit {0}) → Archive B → Archive B
m >> k = m >>= λ _. k

abbrev pub pure : {A : Type 0} → A → Archive A
pure a s = some (good a, s)

abbrev pub throw : {A : Type 0} → Errno → Archive A
throw e s = some (fail e, s)

-- `memcpy(block + at, src, length src)`
unfoldable pub store : ℕ → List ℕ → List ℕ → Option (List ℕ)
store at src block =
    if leb (at + length src) (length block)
    then some (take at block ++ (src ++ drop (at + length src) block))
    else none

-- `memcpy(dst, block + at, n)`
unfoldable pub fetch : ℕ → ℕ → List ℕ → Option (List ℕ)
fetch at n block = if leb (at + n) (length block) then some (take n (drop at block)) else none
