-- ===== src/Recordio/Rules.antt =====
-- Rules for records: a `do` block of serializers writes the bytes of its fields one after the other,
-- and one of deserializers reads them. The tactic `search` applies them.
use ext_zookeeper.Prelude.{
  if◌then◌else◌, ℕ, ◌^◌, ◌≤◌, ◌<◌, ◌≡◌, none, some, List, [], ◌∷◌, ◌++◌, length, arith, subst,
}
use ext_zookeeper.Prelude.Bytes.{IsInt32, IsInt64, be}
use ext_zookeeper.Recordio.Defs.{good, Archive, ◌>>=◌, ◌>>◌, pure}
use ext_zookeeper.Recordio.Words.{negone, is_neg}
use ext_zookeeper.Recordio.Ops.{
  Heap, Buffer, CString, oa_start_record, oa_end_record, oa_end_vector, ia_start_record,
  ia_end_record, oa_serialize_int, oa_serialize_long, oa_serialize_bool, oa_serialize_buffer,
  oa_serialize_string, ia_deserialize_int, ia_deserialize_long, ia_deserialize_bool,
  ia_deserialize_buffer, ia_deserialize_string,
}
use ext_zookeeper.Recordio.Spec.{
  Allocates, Writes, Reads, Writes-seq, Reads-seq, Writes-pure, Reads-pure,
}
use ext_zookeeper.Recordio.Output.{
  IsText, IsBuffer, bool_byte, block_bytes, buffer_bytes as bytes_of_buffer,
  oa_serialize_int-Writes, oa_serialize_long-Writes, oa_serialize_bool-Writes,
  oa_serialize_buffer-Writes, oa_serialize_string-Writes,
}
use ext_zookeeper.Recordio.Input.{
  received, ia_deserialize_int-Reads, ia_deserialize_long-Reads, ia_deserialize_bool-Reads,
  ia_deserialize_buffer-Reads, ia_deserialize_string-Reads,
}
use ext_zookeeper.Recordio.Safety.{
  IsContained, Refuses, IsContained-bind, IsContained-pure, ia_deserialize_int-IsContained,
  ia_deserialize_long-IsContained, ia_deserialize_bool-IsContained,
  ia_deserialize_buffer-IsContained, ia_deserialize_string-IsContained,
}
use ext_zookeeper.Recordio.Transfer.{transfer, transfer-Writes-Reads}
use mathlib.Core.List.{append-nil}

-- The wire forms of the fields.
unfoldable pub int_bytes : ℕ → List ℕ
int_bytes v = be 4 v

unfoldable pub long_bytes : ℕ → List ℕ
long_bytes v = be 8 v

unfoldable pub bool_bytes : ℕ → List ℕ
bool_bytes v = bool_byte v ∷ []

unfoldable pub text_bytes : List ℕ → List ℕ
text_bytes bs = block_bytes bs

unfoldable pub string_bytes : CString → List ℕ
unfolding text_bytes int_bytes
string_bytes none = int_bytes negone
string_bytes (some bs) = text_bytes bs

unfoldable pub buffer_bytes : Buffer → List ℕ
buffer_bytes b = bytes_of_buffer b

-- A string that reaches the other side: not null, with no zero inside, and of a sane length.
abbrev pub IsString : CString → Type 0
IsString s = elim s [ none ↦ ⊥ | some bs ↦ IsText bs × (length bs < 2 ^ 28) ]

-- An int that stands for a truth value.
abbrev pub IsFlag : ℕ → Type 0
IsFlag v = v < 2

pub record Output (m : Archive (Unit {0})) (bs : List ℕ) : Type 0 where
  pub apply : Writes m bs

pub record Input {A : Type 0} (g : Archive A) (bs : List ℕ) (a : A) : Type 0 where
  pub apply : Reads g bs a

pub record Guarded {A : Type 0} (g : Archive A) : Type 0 where
  pub apply : IsContained g

pub Output-seq :
    {m k : Archive (Unit {0})} {bs cs : List ℕ}
    → Output m bs
    → Output k cs
    → Output (m >> k) (bs ++ cs)
Output-seq {m} {k} {bs} {cs} hm hk = record { apply = Writes-seq m k bs cs hm.apply hk.apply }

pub Output-start :
    {k : Archive (Unit {0})} {bs : List ℕ} → Output k bs → Output (oa_start_record >> k) bs
unfolding oa_start_record
Output-start h = record { apply = h.apply }

pub Output-last :
    {m : Archive (Unit {0})} {bs : List ℕ} → Output m bs → Output (m >> oa_end_record) bs
unfolding oa_end_record
Output-last {m} {bs} h = record {
  apply =
      subst (Writes (m >> pure tt)) (append-nil bs)
        (Writes-seq m (pure tt) bs [] h.apply Writes-pure);
}

pub Output-nothing : Output (pure tt) []
Output-nothing = record { apply = Writes-pure }

pub Output-end_vector :
    {m : Archive (Unit {0})} {bs : List ℕ} → Output m bs → Output (m >> oa_end_vector) bs
unfolding oa_end_vector oa_end_record
Output-end_vector h = record { apply = (Output-last h).apply }

pub Input-seq :
    {A B : Type 0} {g : Archive A} (f : A → Archive B) {bs cs : List ℕ} {a : A} {b : B}
    → Input g bs a
    → Input (f a) cs b
    → Input (g >>= f) (bs ++ cs) b
Input-seq {g} f {bs} {cs} {a} {b} hg hf = record {
  apply = Reads-seq g f bs cs a b hg.apply hf.apply;
}

pub Input-start :
    {A : Type 0} {k : Archive A} {bs : List ℕ} {a : A}
    → Input k bs a
    → Input (ia_start_record >> k) bs a
unfolding ia_start_record
Input-start h = record { apply = h.apply }

pub Input-last :
    {A B : Type 0} {g : Archive A} (f : A → B) {bs : List ℕ} {a : A}
    → Input g bs a
    → Input (g >>= λ x. ia_end_record >> pure (f x)) bs (f a)
unfolding ia_end_record
Input-last {g} f {bs} {a} h = record {
  apply =
      subst (λ cs. Reads (g >>= λ x. pure (f x)) cs (f a)) (append-nil bs)
        (Reads-seq g (λ x. pure (f x)) bs [] a (f a) h.apply (Reads-pure (f a)));
}

pub Guarded-bind :
    {A B : Type 0} {g : Archive A} {f : A → Archive B}
    → Guarded g
    → ((a : A) → Guarded (f a))
    → Guarded (g >>= f)
Guarded-bind {g} {f} hg hf = record { apply = IsContained-bind g f hg.apply (λ a. (hf a).apply) }

pub Guarded-start : Guarded ia_start_record
unfolding ia_start_record
Guarded-start = record { apply = IsContained-pure tt }

pub Guarded-last : {A : Type 0} (a : A) → Guarded (ia_end_record >> pure a)
unfolding ia_end_record
Guarded-last a = record { apply = IsContained-pure a }

module _ (heap : Heap) (allocates : Allocates heap) where
  pub int-Output : (v : ℕ) → Output (oa_serialize_int heap v) (int_bytes v)
  unfolding int_bytes
  int-Output v = record { apply = oa_serialize_int-Writes heap allocates v }

  pub long-Output : (v : ℕ) → Output (oa_serialize_long heap v) (long_bytes v)
  unfolding long_bytes
  long-Output v = record { apply = oa_serialize_long-Writes heap allocates v }

  pub bool-Output : (v : ℕ) → Output (oa_serialize_bool heap v) (bool_bytes v)
  unfolding bool_bytes
  bool-Output v = record { apply = oa_serialize_bool-Writes heap allocates v }

  pub string-Output :
      (s : CString) → IsString s → Output (oa_serialize_string heap s) (string_bytes s)
  unfolding string_bytes text_bytes
  string-Output none h = absurd h
  string-Output (some bs) h = record {
    apply = oa_serialize_string-Writes heap allocates bs h.0 h.1;
  }

  pub buffer-Output :
      (b : Buffer) → IsBuffer b → Output (oa_serialize_buffer heap (some b)) (buffer_bytes b)
  unfolding buffer_bytes
  buffer-Output b h = record { apply = oa_serialize_buffer-Writes heap allocates b h }

  pub string-Input :
      (s : CString) → IsString s → Input (ia_deserialize_string heap) (string_bytes s) s
  unfolding string_bytes text_bytes
  string-Input none h = absurd h
  string-Input (some bs) h = record { apply = ia_deserialize_string-Reads heap allocates bs h.1 }

  pub buffer-Input :
      (b : Buffer) → IsBuffer b → Input (ia_deserialize_buffer heap) (buffer_bytes b) (received b)
  unfolding buffer_bytes
  buffer-Input b h = record { apply = ia_deserialize_buffer-Reads heap allocates b h }

  -- What is written as some bytes and read from them comes through.
  pub transfer-Output-Input :
      {A : Type 0} {m : Archive (Unit {0})} {g : Archive A} {bs : List ℕ} {a : A}
      → Output m bs
      → Input g bs a
      → length bs ≤ 2 ^ 28
      → transfer heap m g ≡ some (good a)
  transfer-Output-Input {m} {g} {bs} {a} hm hg h =
      transfer-Writes-Reads heap allocates m g bs a hm.apply hg.apply h

pub int-Input : (v : ℕ) → IsInt32 v → Input ia_deserialize_int (int_bytes v) v
unfolding int_bytes
int-Input v h = record { apply = ia_deserialize_int-Reads v h }

pub long-Input : (v : ℕ) → IsInt64 v → Input ia_deserialize_long (long_bytes v) v
unfolding long_bytes
long-Input v h = record { apply = ia_deserialize_long-Reads v h }

one_bool : (v : ℕ) → v < 2 → bool_byte v ≡ v
one_bool v h = ground arith

pub bool-Input : (v : ℕ) → v < 2 → Input ia_deserialize_bool (bool_bytes v) v
unfolding bool_bytes
bool-Input v h = record {
  apply =
      subst (Reads ia_deserialize_bool (bool_byte v ∷ [])) (one_bool v h)
        (ia_deserialize_bool-Reads v);
}

pub Guarded-int : Guarded ia_deserialize_int
Guarded-int = record { apply = ia_deserialize_int-IsContained }

pub Guarded-long : Guarded ia_deserialize_long
Guarded-long = record { apply = ia_deserialize_long-IsContained }

pub Guarded-bool : Guarded ia_deserialize_bool
Guarded-bool = record { apply = ia_deserialize_bool-IsContained }

module _ (heap : Heap) (refuses : Refuses heap) where
  pub Guarded-string : Guarded (ia_deserialize_string heap)
  Guarded-string = record { apply = ia_deserialize_string-IsContained heap refuses }

  pub Guarded-buffer : Guarded (ia_deserialize_buffer heap)
  Guarded-buffer = record { apply = ia_deserialize_buffer-IsContained heap refuses }

-- A count that fits an int and is not negative is the number of rounds.
pub rounds : (n k : ℕ) → n ≡ k → k < 2 ^ 27 → (if is_neg n then 0 else n) ≡ k
rounds n k e h = ground arith
