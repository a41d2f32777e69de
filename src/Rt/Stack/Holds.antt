-- ===== src/Rt/Stack/Holds.antt =====
-- When the blocks of `StackThin` (src/rt/ds/stack.h) hold a list, and what an allocator has to ensure.
use verona.Prelude.{
  ℕ, suc, ◌-◌, ◌%◌, ◌<◌, ◌≡◌, ◌≢◌, refl, sym, ap, subst, ◌∙◌, ◌⊎◌, inl, inr, List, [], ◌∷◌, ◌++◌,
  arith, ==_ne, ==_self, All,
}
use verona.Rt.Stack.Thin.{Memory, write, forget, Allocator, null_block, null_index}

abbrev pub base : ℕ → ℕ
base address = address - address % 64

-- `b` is none of the blocks.
abbrev pub IsFresh : ℕ → List ℕ → Type 0
IsFresh b blocks = All (λ c. b ≢ c) blocks

-- A block that may be handed out beside `blocks`.
pub record IsNew (b : ℕ) (blocks : List ℕ) : Type 0 where
  pub aligned : b % 64 ≡ 0
  pub not_null : b ≢ null_block
  pub fresh : IsFresh b blocks

-- `InUse a blocks`: in the state `a`, the blocks are handed out and not given back; their order does
-- not matter.
pub record IsAllocator {A : Type 0} (calls : Allocator A) (InUse : A → List ℕ → Type 0)
    : Type 0 where
  pub InUse-IsNew : (a : A) (b : ℕ) (blocks : List ℕ) → InUse a (b ∷ blocks) → IsNew b blocks
  pub alloc-InUse :
      (a : A) (blocks : List ℕ)
      → InUse a blocks
      → InUse (calls.alloc a).1 ((calls.alloc a).0 ∷ blocks)
  pub dealloc-InUse :
      (a : A) (b : ℕ) (blocks : List ℕ) → InUse a (b ∷ blocks) → InUse (calls.dealloc b a) blocks
  pub swap-InUse :
      (a : A) (front : List ℕ) (b c : ℕ) (blocks : List ℕ)
      → InUse a (front ++ b ∷ c ∷ blocks)
      → InUse a (front ++ c ∷ b ∷ blocks)

-- `Holds memory blocks index xs`: the stack with this index stands in the blocks, the newest block
-- first, and holds `xs`, the newest element first.
pub data Holds (memory : Memory) : List ℕ → ℕ → List ℕ → Type 0 where
  bottom : Holds memory [] null_index []
  first :
      {b prev : ℕ} {blocks xs : List ℕ} {x : ℕ}
      → IsNew b blocks
      → prev % 64 ≡ 63
      → memory b ≡ prev
      → memory (suc b) ≡ x
      → Holds memory blocks prev xs
      → Holds memory (b ∷ blocks) (suc b) (x ∷ xs)
  further :
      {b p : ℕ} {blocks xs : List ℕ} {x : ℕ}
      → base p ≡ b
      → p % 64 ≢ 0
      → p % 64 ≢ 63
      → memory (suc p) ≡ x
      → Holds memory (b ∷ blocks) p xs
      → Holds memory (b ∷ blocks) (suc p) (x ∷ xs)

-- An address that no element and no link of the stack stands at.
abbrev pub IsOutside : ℕ → List ℕ → ℕ → Type 0
IsOutside w blocks p = IsFresh (base w) blocks ⊎ ((base w ≡ base p) × (p < w))

pub base-aligned : (b : ℕ) → b % 64 ≡ 0 → base b ≡ b
base-aligned b h = omega arith

pub base-first : (b : ℕ) → b % 64 ≡ 0 → base (suc b) ≡ b
base-first b h = omega arith

pub base-further : (p : ℕ) → p % 64 ≢ 63 → base (suc p) ≡ base p
base-further p h = omega arith

pub write-other :
    (memory : Memory) (w v a : ℕ) {x : ℕ} → a ≢ w → memory a ≡ x → write memory w v a ≡ x
write-other memory w v a ne h = rw (==_ne a w ne) h

pub write-same : (memory : Memory) (w v : ℕ) → write memory w v w ≡ v
write-same memory w v = rw (==_self w) refl

-- The two words that the oldest element of a block needs.
IsOutside-first :
    (w b : ℕ) (blocks : List ℕ)
    → IsNew b blocks
    → IsOutside w (b ∷ blocks) (suc b)
    → (b ≢ w) × (suc b ≢ w) × IsFresh (base w) blocks
IsOutside-first w b blocks n (inl (ne, fr)) = (
  (λ e. ne (ap base (sym e) ∙ base-aligned b n.aligned)),
  (λ e. ne (ap base (sym e) ∙ base-first b n.aligned)),
  fr,
)
IsOutside-first w b blocks n (inr (same, lt)) = (
  (λ e. omega arith),
  (λ e. omega arith),
  subst (λ c. IsFresh c blocks) (sym (same ∙ base-first b n.aligned)) n.fresh,
)

IsOutside-further :
    (w b p : ℕ) (blocks : List ℕ)
    → base p ≡ b
    → p % 64 ≢ 63
    → IsOutside w (b ∷ blocks) (suc p)
    → (suc p ≢ w) × IsOutside w (b ∷ blocks) p
IsOutside-further w b p blocks at hi (inl (ne, fr)) =
    (λ e. ne (ap base (sym e) ∙ base-further p hi ∙ at), inl (ne, fr))
IsOutside-further w b p blocks at hi (inr (same, lt)) =
    (λ e. omega arith, inr (same ∙ base-further p hi, omega arith))

-- A write outside of the stack leaves what it holds.
pub write-Holds :
    (memory : Memory) (w v : ℕ) {blocks xs : List ℕ} {p : ℕ}
    → IsOutside w blocks p
    → Holds memory blocks p xs
    → Holds (write memory w v) blocks p xs
write-Holds memory w v out bottom = bottom
write-Holds memory w v out (first {b} n full link item below) =
    let (ne, ne_item, fr) = IsOutside-first w b _ n out in
    first n full (write-other memory w v b ne link) (write-other memory w v (suc b) ne_item item)
      (write-Holds memory w v (inl fr) below)
write-Holds memory w v out (further {b} {p} at lo hi item below) =
    let (ne, rest) = IsOutside-further w b p _ at hi out in
    further at lo hi (write-other memory w v (suc p) ne item) (write-Holds memory w v rest below)

forget-other :
    (junk memory : Memory) (b a : ℕ) {x : ℕ}
    → b ≢ base a
    → memory a ≡ x
    → forget junk b memory a ≡ x
unfolding forget
forget-other junk memory b a ne h = rw (==_ne (base a) b (λ e. ne (sym e)), forget) h

-- What becomes of a block outside of the stack leaves what the stack holds.
pub forget-Holds :
    (junk memory : Memory) (b : ℕ) {blocks xs : List ℕ} {p : ℕ}
    → IsFresh b blocks
    → Holds memory blocks p xs
    → Holds (forget junk b memory) blocks p xs
forget-Holds junk memory b f bottom = bottom
forget-Holds junk memory b f (first {b = c} n full link item below) =
    first n full (forget-other junk memory b c (λ e. f.0 (e ∙ base-aligned c n.aligned)) link)
      (forget-other junk memory b (suc c) (λ e. f.0 (e ∙ base-first c n.aligned)) item)
      (forget-Holds junk memory b f.1 below)
forget-Holds junk memory b f (further {p = p} at lo hi item below) =
    further at lo hi
      (forget-other junk memory b (suc p) (λ e. f.0 (e ∙ base-further p hi ∙ at)) item)
      (forget-Holds junk memory b f below)

-- Where a block has room, the newest element stands in the newest block.
Holds-block :
    {memory : Memory} {blocks xs : List ℕ} {p : ℕ}
    → p % 64 ≢ 63
    → Holds memory blocks p xs
    → (b : ℕ) × (rest : List ℕ) × (blocks ≡ b ∷ rest) × (base p ≡ b) × (p % 64 ≢ 0)
Holds-block room bottom = absurd (room refl)
Holds-block room (first {b} {blocks = blocks} n full link item below) =
    let aligned = n.aligned in (b, blocks, refl, base-first b aligned, λ e. omega arith)
Holds-block room (further {b} {p} {blocks} at lo hi item below) =
    (b, blocks, refl, base-further p hi ∙ at, λ e. omega arith)

pub push-further :
    (memory : Memory) (x : ℕ) {blocks xs : List ℕ} {p : ℕ}
    → p % 64 ≢ 63
    → Holds memory blocks p xs
    → Holds (write memory (suc p) x) blocks (suc p) (x ∷ xs)
push-further memory x {xs = xs} {p = p} room h =
    let (b, rest, e, at, lo) = Holds-block room h in
    let kept = write-Holds memory (suc p) x (inr (base-further p room, omega arith)) h in
    subst (λ bs. Holds (write memory (suc p) x) bs (suc p) (x ∷ xs)) (sym e)
      (further at lo room (write-same memory (suc p) x)
        (subst (λ bs. Holds (write memory (suc p) x) bs p xs) e kept))

pub push-first :
    (memory : Memory) (x b : ℕ) {blocks xs : List ℕ} {p : ℕ}
    → IsNew b blocks
    → p % 64 ≡ 63
    → Holds memory blocks p xs
    → Holds (write (write memory b p) (suc b) x) (b ∷ blocks) (suc b) (x ∷ xs)
push-first memory x b {blocks = blocks} {p = p} n full h =
    first n full
      (write-other (write memory b p) (suc b) x b (λ e. omega arith) (write-same memory b p))
      (write-same (write memory b p) (suc b) x)
      (write-Holds (write memory b p) (suc b) x
        (inl (subst (λ c. IsFresh c blocks) (sym (base-first b n.aligned)) n.fresh))
        (write-Holds memory b p
          (inl (subst (λ c. IsFresh c blocks) (sym (base-aligned b n.aligned)) n.fresh)) h))
