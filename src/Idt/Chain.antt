-- ===== src/Idt/Chain.antt =====
-- The chains of idt.c as lists.
use usbloader.Common.{
  ℕ, zero, suc, ◌<◌, ◌≡◌, ◌≢◌, refl, ◌⊎◌, sym, Bool, true, false, ◌||◌, Bool-cases, inl, inr, some,
  List, [], ◌∷◌, ◌++◌, arith, leb, ◌==◌, update, length,
}
use usbloader.Idt.{Idt, max_isr_cnt, last_elem, idt_reg_handler}

abbrev pub has : ℕ → List ℕ → Bool
has a [] = false
has a (x ∷ xs) = a == x || has a xs

-- From the pointer `p` the fields `_next` lead through the distinct handlers `xs`.
abbrev pub Chain : (next : ℕ → ℕ) → ℕ → List ℕ → Type 0
Chain next p [] = p ≡ 0
Chain next p (x ∷ xs) = (p ≡ x) × (x ≢ 0) × (has x xs ≡ false) × Chain next (next x) xs

-- A handler that is not of the chain may change its own field.
Chain-update :
    (next : ℕ → ℕ) (p : ℕ) (xs : List ℕ) (a v : ℕ)
    → Chain next p xs
    → has a xs ≡ false
    → Chain (update next a v) p xs
Chain-update next p [] a v c out = c
Chain-update next p (x ∷ xs) a v c out =
    let other : (x == a) ≡ false = ground arith in
    let rest : has a xs ≡ false = ground arith in
    (c.0, c.1, c.2, rw other (Chain-update next (next x) xs a v c.3 rest))

-- The last handler of a chain of one or more.
abbrev last_of : ℕ → List ℕ → ℕ
last_of x [] = x
last_of x (y ∷ ys) = last_of y ys

last_elem-last_of :
    (fuel : ℕ) (next : ℕ → ℕ) (x : ℕ) (xs : List ℕ)
    → length xs < fuel
    → Chain next (next x) xs
    → last_elem fuel next x ≡ some (last_of x xs)
unfolding last_elem
last_elem-last_of zero next x xs lt c = absurd (omega arith)
last_elem-last_of (suc fuel) next x [] lt c = rw c refl
last_elem-last_of (suc fuel) next x (y ∷ ys) lt c =
    let set : (y == 0) ≡ false = ground arith in
    let rest : Chain next (next y) ys = c.3 in
    rw (c.0, set) (last_elem-last_of fuel next y ys (omega arith) rest)

has-append :
    (a : ℕ) (xs : List ℕ) (h : ℕ)
    → has a xs ≡ false
    → (a == h) ≡ false
    → has a (xs ++ h ∷ []) ≡ false
has-append a [] h out ne = ground arith
has-append a (x ∷ xs) h out ne = ground (arith, has-append a xs h)

has-last_of : (a x : ℕ) (xs : List ℕ) → has a (x ∷ xs) ≡ false → (a == last_of x xs) ≡ false
has-last_of a x [] out = ground arith
has-last_of a x (y ∷ ys) out = has-last_of a y ys (ground arith)

-- A new end, linked from the last handler.
Chain-append :
    (next : ℕ → ℕ) (x : ℕ) (xs : List ℕ) (h : ℕ)
    → Chain next x (x ∷ xs)
    → h ≢ 0
    → has h (x ∷ xs) ≡ false
    → next h ≡ 0
    → Chain (update next (last_of x xs) h) x (x ∷ xs ++ h ∷ [])
Chain-append next x [] h c set out end =
    let same : (x == x) ≡ true = ground arith in
    let other : (h == x) ≡ false = ground arith in
    (refl, c.1, ground arith, (rw same refl, set, refl, rw other end))
Chain-append next x (y ∷ ys) h c set out end =
    let far = has-last_of x y ys c.2 in
    let here : y ≡ next x = sym c.3.0 in
    (
      refl,
      c.1,
      has-append x (y ∷ ys) h c.2 (ground arith),
      rw (far, c.3.0) (Chain-append next y ys h (refl, c.3.1, c.3.2, c.3.3) set (ground arith) end),
    )

-- The chains of all interrupts, as a table of lists that share no handler.
pub record IsIdt (s : Idt) (chains : ℕ → List ℕ) : Type 0 where
  pub chain : (n : ℕ) → n < max_isr_cnt → Chain s.next (s.int_handlers n) (chains n)
  pub apart : (m n a : ℕ) → (m == n) ≡ false → has a (chains m) ≡ true → has a (chains n) ≡ false

-- A handler that no chain holds.
abbrev pub IsNew : ℕ → (ℕ → List ℕ) → Type 0
IsNew h chains = (n : ℕ) → has h (chains n) ≡ false

has-last_of_self : (x : ℕ) (xs : List ℕ) → has (last_of x xs) (x ∷ xs) ≡ true
has-last_of_self x [] = ground arith
has-last_of_self x (y ∷ ys) = ground (arith, has-last_of_self y ys)

has-append_cases :
    (a h : ℕ) (xs : List ℕ) → has a (xs ++ h ∷ []) ≡ true → (has a xs ≡ true) ⊎ (a ≡ h)
has-append_cases a h [] e = inr (ground arith)
has-append_cases a h (x ∷ xs) e = ground (arith, has-append_cases a h xs)

abbrev pub registered : (ℕ → List ℕ) → ℕ → ℕ → ℕ → List ℕ
registered chains n h = update chains n (chains n ++ h ∷ [])

registered-apart :
    (chains : ℕ → List ℕ) (n h : ℕ)
    → ((i j a : ℕ) → (i == j) ≡ false → has a (chains i) ≡ true → has a (chains j) ≡ false)
    → IsNew h chains
    → (i j a : ℕ) → (i == j) ≡ false
    → has a (registered chains n h i) ≡ true
    → has a (registered chains n h j) ≡ false
registered-apart chains n h apart new i j a ne e = ground (
  arith,
  has-append_cases a h (chains n),
  has-append a (chains n) h,
  apart n j a,
  apart i n a,
  apart i j a,
  new i,
  new j,
)

module _ {s : Idt} {chains : ℕ → List ℕ} (idt : IsIdt s chains) (n h : ℕ) (lt : n < max_isr_cnt)
    (set : h ≢ 0) (new : IsNew h chains) where
  abbrev cleared : ℕ → ℕ
  cleared = update s.next h 0

  cleared-Chain : (m : ℕ) → m < max_isr_cnt → Chain cleared (s.int_handlers m) (chains m)
  cleared-Chain m small =
      Chain-update s.next (s.int_handlers m) (chains m) h 0 (idt.chain m small) (new m)

  cleared_self : cleared h ≡ 0
  cleared_self = ground arith

  first : Idt
  first = record { int_handlers = update s.int_handlers n h; next = cleared }

  -- The first handler of an interrupt.
  first-IsIdt : chains n ≡ [] → IsIdt first (registered chains n h)
  unfolding first
  first-IsIdt e = record {
    chain = λ m small. elim (Bool-cases (m == n)) [
      | inl here ↦ rw (here, e) (refl, set, refl, cleared_self)
      | inr other ↦ rw other (cleared-Chain m small)
    ];
    apart = registered-apart chains n h idt.apart new;
  }

  further : ℕ → List ℕ → Idt
  further x xs = record s { next = update cleared (last_of x xs) h }

  -- Another handler behind those of the chain.
  further-IsIdt :
      (x : ℕ) (xs : List ℕ) → chains n ≡ x ∷ xs → IsIdt (further x xs) (registered chains n h)
  unfolding further
  further-IsIdt x xs e =
      let c : Chain cleared (s.int_handlers n) (x ∷ xs) = rw e at (cleared-Chain n lt) in
      let fresh : has h (x ∷ xs) ≡ false = rw e at (new n) in
      let held : has (last_of x xs) (chains n) ≡ true = rw e (has-last_of_self x xs) in
      record {
        chain = λ m small. elim (Bool-cases (m == n)) [
          | inl here ↦
              let same : m ≡ n = ground arith in
              rw (here, e, same, c.0)
                (Chain-append cleared x xs h (refl, c.1, c.2, c.3) set fresh cleared_self)
          | inr other ↦ rw other (
              Chain-update cleared (s.int_handlers m) (chains m) (last_of x xs) h
                (cleared-Chain m small) (idt.apart n m (last_of x xs) (ground arith) held))
        ];
        apart = registered-apart chains n h idt.apart new;
      }

  reg_chain :
      (fuel : ℕ) (xs : List ℕ)
      → chains n ≡ xs
      → length xs < fuel
      → (s' : Idt) × (idt_reg_handler fuel n h s ≡ some s') × IsIdt s' (registered chains n h)
  unfolding idt_reg_handler first further
  reg_chain fuel [] e enough =
      let c : Chain cleared (s.int_handlers n) [] = rw e at (cleared-Chain n lt) in
      let small : leb max_isr_cnt n ≡ false = ground arith in
      (first, rw (small, c) refl, first-IsIdt e)
  reg_chain fuel (x ∷ xs) e enough =
      let c : Chain cleared (s.int_handlers n) (x ∷ xs) = rw e at (cleared-Chain n lt) in
      let small : leb max_isr_cnt n ≡ false = ground arith in
      let some_first : (x == 0) ≡ false = ground arith in
      let found = last_elem-last_of fuel cleared x xs (omega arith) c.3 in
      (further x xs, rw (small, c.0, some_first, found) refl, further-IsIdt x xs e)

-- On chains that are lists of distinct handlers no two of which share one, for an interrupt below
-- 48, a handler other than NULL that no chain holds and more fuel than the chain has handlers,
-- idt_reg_handler succeeds and leaves such chains: the interrupt's with the handler at its end, the
-- others as they were.
pub idt_reg_handler-append :
    (fuel n h : ℕ) (s : Idt) (chains : ℕ → List ℕ)
    → IsIdt s chains
    → n < max_isr_cnt
    → h ≢ 0
    → IsNew h chains
    → length (chains n) < fuel
    → (s' : Idt) × (idt_reg_handler fuel n h s ≡ some s') × IsIdt s' (registered chains n h)
idt_reg_handler-append fuel n h s chains idt lt set new enough =
    reg_chain idt n h lt set new fuel (chains n) refl enough
