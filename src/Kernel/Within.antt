-- ===== src/Kernel/Within.antt =====
-- Code that stays within a relation between the variables before and after it, wherever it returns.
use sancus_riot.Common.{
  ℕ, ◌≡◌, refl, ap, ◌∙◌, Bool, true, false, Option, none, some, arith, ◌==◌, if◌then◌else◌,
}
use mathlib.Core.Path.{subst}
use sancus_riot.Kernel.{Kernel}
use sancus_riot.Kernel.Monad.{M, pure, ◌>>=◌, ◌>>◌, fault, get, modify, check}

-- A relation between two states that is reflexive and transitive.
pub record Order : Type 1 where
  pub rel : Kernel → Kernel → Type 0
  pub same : (k : Kernel) → rel k k
  pub join : (a b c : Kernel) → rel a b → rel b c → rel a c

-- Wherever `m` returns, its states before and after are related.
abbrev pub Within : {A : Type 0} → Order → M A → Type 0
Within {A} o m = (k k' : Kernel) (a : A) → m k ≡ some (a, k') → o.rel k k'

state_or : {A : Type 0} → Kernel → Option (A × Kernel) → Kernel
state_or k none = k
state_or k (some (_, k')) = k'

-- Two results that are equal leave the same variables.
pub state_of :
    {A : Type 0} {a a' : A} {k k' : Kernel}
    → ◌≡◌ {A = Option (A × Kernel)} (some (a, k)) (some (a', k'))
    → k ≡ k'
unfolding state_or
state_of {k = k} e = ap (state_or k) e

-- The second run follows on a first that returns.
pub bind-eq :
    {A B : Type 0} (m : M A) (f : A → M B) (k k' : Kernel) (a : A)
    → m k ≡ some (a, k')
    → (m >>= f) k ≡ f a k'
bind-eq m f k k' a e = rw (e, ◌>>=◌) refl

-- A chain that returns is two runs that return.
pub bind-inv :
    {A B : Type 0} (m : M A) (f : A → M B) (k k' : Kernel) (b : B)
    → (m >>= f) k ≡ some (b, k')
    → (a : A) × (k1 : Kernel) × (m k ≡ some (a, k1)) × (f a k1 ≡ some (b, k'))
bind-inv {A} {B} m f k k' b h = from (m k) refl h
  where
    from :
        (r : Option (A × Kernel))
        → m k ≡ r
        → (elim r [ none ↦ none | some (a, k1) ↦ f a k1 ]) ≡ some (b, k')
        → (a : A) × (k1 : Kernel) × (m k ≡ some (a, k1)) × (f a k1 ≡ some (b, k'))
    from none e h = absurd (ground (arith, h))
    from (some (a, k1)) e h = (a, k1, e, h)

module _ (o : Order) where
  pub Within-pure : {A : Type 0} (a : A) → Within o (pure a)
  Within-pure a k k' b h = subst (o.rel k) (state_of h) (o.same k)

  pub Within-get : Within o get
  Within-get k k' b h = subst (o.rel k) (state_of h) (o.same k)

  pub Within-fault : {A : Type 0} → Within o (fault {A = A})
  Within-fault k k' b h = absurd (ground (arith, h))

  pub Within-modify : (f : Kernel → Kernel) → ((k : Kernel) → o.rel k (f k)) → Within o (modify f)
  Within-modify f w k k' b h = subst (o.rel k) (state_of h) (w k)

  pub Within-if :
      {A : Type 0} (t : Bool) (m n : M A) → Within o m → Within o n → Within o (if t then m else n)
  Within-if true m n v w = v
  Within-if false m n v w = w

  pub Within-elim :
      {A : Type 0} (t : Bool) (m n : M A)
      → Within o m
      → Within o n
      → Within o (elim t [ true ↦ m | false ↦ n ])
  Within-elim true m n v w = v
  Within-elim false m n v w = w

  pub Within-check : (p : ℕ) → Within o (check p)
  Within-check p = Within-if (p == 0) fault (pure tt) Within-fault (Within-pure tt)

  pub Within-bind :
      {A B : Type 0} (m : M A) (f : A → M B)
      → Within o m
      → ((a : A) → Within o (f a))
      → Within o (m >>= f)
  Within-bind m f v w k k' b h =
      let (a, k1, e, e') = bind-inv m f k k' b h in o.join k k1 k' (v k k1 a e) (w a k1 k' b e')

  pub Within-then :
      {B : Type 0} (m : M (Unit {0})) (n : M B) → Within o m → Within o n → Within o (m >> n)
  Within-then m n v w = Within-bind m (λ _. n) v (λ _. w)

-- What two states have in common that differ in the timers alone.
pub record Same (k k' : Kernel) : Type 0 where
  pub threads : k'.threads ≡ k.threads
  pub links : k'.links ≡ k.links
  pub queues : k'.runqueues ≡ k.runqueues
  pub cache : k'.bitcache ≡ k.bitcache
  pub active : k'.active_thread ≡ k.active_thread
  pub request : k'.switch_request ≡ k.switch_request

abbrev pub quiet : Order
quiet = record {
  rel = Same;
  same = λ k. record {
    threads = refl;
    links = refl;
    queues = refl;
    cache = refl;
    active = refl;
    request = refl;
  };
  join = λ a b c f g. record {
    threads = g.threads ∙ f.threads;
    links = g.links ∙ f.links;
    queues = g.queues ∙ f.queues;
    cache = g.cache ∙ f.cache;
    active = g.active ∙ f.active;
    request = g.request ∙ f.request;
  };
}

pub unchanged : (k : Kernel) → Same k k
unchanged = quiet.same

-- A function that leaves all but the timers alone.
abbrev pub Quiet : {A : Type 0} → M A → Type 0
Quiet m = Within quiet m

-- A property that is kept, as a relation.
abbrev pub keeping : (Kernel → Type 0) → Order
keeping P = record { rel = λ k k'. P k → P k'; same = λ k h. h; join = λ a b c f g h. g (f h) }

pub keeping-Quiet :
    {A : Type 0} (P : Kernel → Type 0) (m : M A)
    → ((k k' : Kernel) → Same k k' → P k → P k')
    → Quiet m
    → Within (keeping P) m
keeping-Quiet P m frame q k k' a h = frame k k' (q k k' a h)
