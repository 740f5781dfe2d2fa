-- ===== src/Replies/Triples.antt =====
-- What a step on the handle leaves, when it leaves anything: rules for pre- and postconditions.
use ext_zookeeper.Prelude.{◌≡◌, refl, Bool, true, false, Option, none, some, List, if◌then◌else◌}
use ext_zookeeper.Watchers.{Hashtable}
use ext_zookeeper.Client.{ZHandle}
use ext_zookeeper.Replies.Defs.{
  Effect, Step, pure, undefined, after, next, ◌>>=◌, ◌>>◌, get, modify, emit, demand,
}

module _ {ht : Hashtable} where
  abbrev pub Ends :
      {A : Type 0} → (A → ZHandle ht → Type 0) → Option (A × ZHandle ht × List Effect) → Type 0
  Ends Q none = Unit {0}
  Ends Q (some (a, zh, es)) = Q a zh

  -- From a handle with P, when the step has a result, that and the handle that it leaves have Q.
  pub record Triple {A : Type 0} (P : ZHandle ht → Type 0) (m : Step ht A)
      (Q : A → ZHandle ht → Type 0) : Type 0 where
    pub apply : (zh : ZHandle ht) → P zh → Ends Q (m zh)

  abbrev pub Keeps : {A : Type 0} → (ZHandle ht → Type 0) → Step ht A → Type 0
  Keeps P m = Triple P m (λ a zh. P zh)

  Ends-after :
      {B : Type 0} (Q : B → ZHandle ht → Type 0) (es : List Effect)
      (o : Option (B × ZHandle ht × List Effect))
      → Ends Q o
      → Ends Q (after es o)
  Ends-after Q es none e = tt
  Ends-after Q es (some (b, zh, more)) e = e

  Ends-next :
      {A B : Type 0} (Q : A → ZHandle ht → Type 0) (R : B → ZHandle ht → Type 0) (f : A → Step ht B)
      → ((a : A) → Triple (Q a) (f a) R)
      → (o : Option (A × ZHandle ht × List Effect)) → Ends Q o
      → Ends R (next f o)
  Ends-next Q R f h none e = tt
  Ends-next Q R f h (some (a, zh, es)) e = Ends-after R es (f a zh) ((h a).apply zh e)

  pub Triple-bind :
      {A B : Type 0} {P : ZHandle ht → Type 0} {Q : A → ZHandle ht → Type 0}
      {R : B → ZHandle ht → Type 0} {m : Step ht A} {f : A → Step ht B}
      → Triple P m Q
      → ((a : A) → Triple (Q a) (f a) R)
      → Triple P (m >>= f) R
  unfolding ◌>>=◌
  Triple-bind {Q} {R} {m} {f} hm hf = record {
    apply = λ zh p. Ends-next Q R f hf (m zh) (hm.apply zh p);
  }

  pub Triple-seq :
      {B : Type 0} {P : ZHandle ht → Type 0} {Q : Unit {0} → ZHandle ht → Type 0}
      {R : B → ZHandle ht → Type 0} {m : Step ht (Unit {0})} {k : Step ht B}
      → Triple P m Q
      → Triple (Q tt) k R
      → Triple P (m >> k) R
  unfolding ◌>>◌
  Triple-seq hm hk = Triple-bind hm (λ u. hk)

  pub Triple-modify :
      {P : ZHandle ht → Type 0} {Q : Unit {0} → ZHandle ht → Type 0} (f : ZHandle ht → ZHandle ht)
      → ((zh : ZHandle ht) → P zh → Q tt (f zh))
      → Triple P (modify f) Q
  unfolding modify
  Triple-modify f h = record { apply = h }

  pub Triple-pure :
      {A : Type 0} {P : ZHandle ht → Type 0} {Q : A → ZHandle ht → Type 0} (a : A)
      → ((zh : ZHandle ht) → P zh → Q a zh)
      → Triple P (pure a) Q
  unfolding pure
  Triple-pure a h = record { apply = h }

  pub Triple-undefined :
      {A : Type 0} {P : ZHandle ht → Type 0} {Q : A → ZHandle ht → Type 0}
      → Triple P (undefined {A = A}) Q
  unfolding undefined
  Triple-undefined = record { apply = λ zh p. tt }

  -- The handle that is looked at is the one that is left.
  pub Triple-get : {P : ZHandle ht → Type 0} → Triple P get (λ a zh. (a ≡ zh) × P zh)
  unfolding get
  Triple-get = record { apply = λ zh p. (refl, p) }

  pub Keeps-get : {P : ZHandle ht → Type 0} → Keeps P get
  unfolding get
  Keeps-get = record { apply = λ zh p. p }

  pub Keeps-emit : {P : ZHandle ht → Type 0} (es : List Effect) → Keeps P (emit es)
  unfolding emit
  Keeps-emit es = record { apply = λ zh p. p }

  Ends-demand :
      {A : Type 0} (P : ZHandle ht → Type 0) (o : Option A) (zh : ZHandle ht)
      → P zh
      → Ends (λ a zh. (o ≡ some a) × P zh) (demand o zh)
  unfolding demand
  Ends-demand P none zh p = tt
  Ends-demand P (some a) zh p = (refl, p)

  pub Triple-demand :
      {A : Type 0} {P : ZHandle ht → Type 0} {o : Option A}
      → Triple P (demand o) (λ a zh. (o ≡ some a) × P zh)
  Triple-demand {P} {o} = record { apply = λ zh p. Ends-demand P o zh p }

  Ends-keep :
      {A : Type 0} (P : ZHandle ht → Type 0) (o : Option A) (zh : ZHandle ht)
      → P zh
      → Ends (λ a zh. P zh) (demand o zh)
  unfolding demand
  Ends-keep P none zh p = tt
  Ends-keep P (some a) zh p = p

  pub Keeps-demand : {A : Type 0} {P : ZHandle ht → Type 0} (o : Option A) → Keeps P (demand o)
  Keeps-demand {P} o = record { apply = λ zh p. Ends-keep P o zh p }

  pub Triple-if :
      {A : Type 0} {P : ZHandle ht → Type 0} {Q : A → ZHandle ht → Type 0} {m k : Step ht A}
      (b : Bool)
      → Triple P m Q
      → Triple P k Q
      → Triple P (if b then m else k) Q
  Triple-if true hm hk = hm
  Triple-if false hm hk = hk

  pub Triple-split :
      {A : Type 0} {P : ZHandle ht → Type 0} {Q : A → ZHandle ht → Type 0} {m k : Step ht A}
      (b : Bool)
      → (b ≡ true → Triple P m Q)
      → (b ≡ false → Triple P k Q)
      → Triple P (if b then m else k) Q
  Triple-split true hm hk = hm refl
  Triple-split false hm hk = hk refl

  -- A test on the handle itself.
  pub Triple-test :
      {A : Type 0} {P : ZHandle ht → Type 0} {Q : A → ZHandle ht → Type 0} {m k : Step ht A}
      (test : ZHandle ht → Bool)
      → Triple P m Q
      → Triple P k Q
      → Triple P (λ zh. if test zh then m zh else k zh) Q
  Triple-test {Q} {m} {k} test hm hk = record {
    apply = λ zh p. chosen (test zh) zh (hm.apply zh p) (hk.apply zh p);
  }
    where
      chosen :
          (b : Bool) (zh : ZHandle ht)
          → Ends Q (m zh)
          → Ends Q (k zh)
          → Ends Q (if b then m zh else k zh)
      chosen true zh x y = x
      chosen false zh x y = y
