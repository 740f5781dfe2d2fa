-- ===== src/Replies/Defs.antt =====
-- Steps on the handle of src/zk/zk_adaptor.h that may call back into the program.
use ext_zookeeper.Prelude.{ℕ, Option, none, some, List, [], ◌++◌}
use ext_zookeeper.Recordio.{Buffer, BuffStruct, good, fail, Archive, CString}
use ext_zookeeper.Jute.Stats.{Stat}
use ext_zookeeper.Jute.StringVectors.{StringVector}
use ext_zookeeper.Jute.Acl.{AclVector}
use ext_zookeeper.Watchers.{Hashtable, Call}
use ext_zookeeper.Auth.{AuthCall}
use ext_zookeeper.Client.{ZHandle}

-- The values that a completion is called with besides the code and its context.
pub data Value : Type 0 where
  no_value : Value
  data_value : Buffer → Stat → Value
  stat_value : Stat → Value
  strings_value : StringVector → Value
  strings_stat_value : StringVector → Stat → Value
  string_value : CString → Value
  acl_value : AclVector → Stat → Value

-- A call of the completion at `function`, with a code, values, and its context.
pub record Told : Type 0 where
  pub function : ℕ
  pub rc : ℕ
  pub value : Value
  pub context : ℕ

-- What the program sees of a step: a completion is called, a watcher is called, a synchronous caller
-- finds its code and values at the address `sc` and is wakened, or a completion of credentials is
-- called.
pub data Effect : Type 0 where
  tells : Told → Effect
  delivers : Call → Effect
  wakes : ℕ → ℕ → Value → Effect
  answers_auth : AuthCall → Effect

-- A step on a handle: its result, the handle, and what the program sees, in order. `none` is
-- undefined behaviour or a failed assertion. A callback that calls the client again is not modelled.
abbrev pub Step : Hashtable → Type 0 → Type 0
Step ht A = ZHandle ht → Option (A × ZHandle ht × List Effect)

module _ {ht : Hashtable} where
  unfoldable pub pure : {A : Type 0} → A → Step ht A
  pure a zh = some (a, zh, [])

  unfoldable pub undefined : {A : Type 0} → Step ht A
  undefined zh = none

  -- The effects of one step in front of those of the next.
  abbrev pub after :
      {B : Type 0}
      → List Effect
      → Option (B × ZHandle ht × List Effect)
      → Option (B × ZHandle ht × List Effect)
  after es none = none
  after es (some (b, zh, more)) = some (b, zh, es ++ more)

  abbrev pub next :
      {A B : Type 0}
      → (A → Step ht B)
      → Option (A × ZHandle ht × List Effect)
      → Option (B × ZHandle ht × List Effect)
  next f none = none
  next f (some (a, zh, es)) = after es (f a zh)

  infixl 5 ◌>>=◌ ◌>>◌
  unfoldable pub ◌>>=◌ : {A B : Type 0} → Step ht A → (A → Step ht B) → Step ht B
  ◌>>=◌ m f zh = next f (m zh)

  unfoldable pub ◌>>◌ : {B : Type 0} → Step ht (Unit {0}) → Step ht B → Step ht B
  m >> k = m >>= λ ignored. k

  unfoldable pub get : Step ht (ZHandle ht)
  get zh = some (zh, zh, [])

  unfoldable pub modify : (ZHandle ht → ZHandle ht) → Step ht (Unit {0})
  modify f zh = some (tt, f zh, [])

  unfoldable pub emit : List Effect → Step ht (Unit {0})
  emit es zh = some (tt, zh, es)

  -- A block that is not there is used all the same.
  unfoldable pub demand : {A : Type 0} → Option A → Step ht A
  demand none zh = none
  demand (some a) zh = some (a, zh, [])

-- Reads a record from an archive and goes on. The code of the reader is not looked at: when it
-- fails, fields that were never set are used.
abbrev pub read_record : {A : Type 0} → Archive A → BuffStruct → Option (A × BuffStruct)
read_record g ia = elim (g ia) [
  | none ↦ none
  | some (fail e, ia') ↦ none
  | some (good a, ia') ↦ some (a, ia')
]
