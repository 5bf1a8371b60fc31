-- ===== src/Uhci/Queue/Linked.antt =====
-- The pending queue of uhci.c as a list of entries.
use usbloader.Common.{
  ℕ, zero, suc, ◌+◌, ◌^◌, ◌≤◌, ◌<◌, ◌≡◌, ◌≢◌, refl, ◌∙◌, ◌⊎◌, false, some, arith, ◌==◌, List, [],
  ◌∷◌, ◌++◌, length,
}
use usbloader.Memory.{Bytes, load32-store32, load32-store32_ne}
use usbloader.Uhci.Queue.{Queue, entry_next, set_entry_next, last_entry, enqueue}

-- Two entries that share no byte.
abbrev pub Disjoint : ℕ → ℕ → Type 0
Disjoint a b = (a + 20 ≤ b) ⊎ (b + 20 ≤ a)

abbrev pub Apart : ℕ → List ℕ → Type 0
Apart a [] = Unit {0}
Apart a (x ∷ xs) = Disjoint a x × Apart a xs

-- From the pointer `p` the fields `next` lead through the entries `es`, which share no bytes.
abbrev pub Linked : Bytes → ℕ → List ℕ → Type 0
Linked m p [] = p ≡ 0
Linked m p (e ∷ es) = (p ≡ e) × (e ≢ 0) × (e < 2 ^ 32) × Apart e es × Linked m (entry_next m e) es

-- `n` has the links of `m` at the entries of a list.
abbrev pub SameNext : Bytes → Bytes → List ℕ → Type 0
SameNext m n [] = Unit {0}
SameNext m n (e ∷ es) = (entry_next n e ≡ entry_next m e) × SameNext m n es

pub Linked-SameNext :
    (m n : Bytes) (p : ℕ) (es : List ℕ) → Linked m p es → SameNext m n es → Linked n p es
Linked-SameNext m n p [] l s = l
Linked-SameNext m n p (e ∷ es) (at_e, set, word, apart, rest) (same, others) =
    let moved = Linked-SameNext m n (entry_next m e) es rest others in
    (at_e, set, word, apart, rw (← same) at moved)

-- A write of an entry's link leaves the links of entries apart from it.
pub set_entry_next-other :
    (m : Bytes) (a v e : ℕ) → Disjoint a e → entry_next (set_entry_next a v m) e ≡ entry_next m e
set_entry_next-other m a v e apart = load32-store32_ne m (a + 16) v (e + 16) (ground arith)

pub set_entry_next-SameNext :
    (m : Bytes) (a v : ℕ) (es : List ℕ) → Apart a es → SameNext m (set_entry_next a v m) es
set_entry_next-SameNext m a v [] apart = tt
set_entry_next-SameNext m a v (e ∷ es) (here, there) =
    (set_entry_next-other m a v e here, set_entry_next-SameNext m a v es there)

abbrev pub last_of : ℕ → List ℕ → ℕ
last_of x [] = x
last_of x (y ∷ ys) = last_of y ys

Apart-last_of : (a x : ℕ) (xs : List ℕ) → Apart a (x ∷ xs) → Disjoint a (last_of x xs)
Apart-last_of a x [] apart = apart.0
Apart-last_of a x (y ∷ ys) apart = Apart-last_of a y ys apart.1

Apart-append : (a : ℕ) (xs : List ℕ) (x : ℕ) → Apart a xs → Disjoint a x → Apart a (xs ++ x ∷ [])
Apart-append a [] x apart d = (d, tt)
Apart-append a (y ∷ ys) x apart d = (apart.0, Apart-append a ys x apart.1 d)

last_entry-last_of :
    (fuel : ℕ) (m : Bytes) (e : ℕ) (es : List ℕ)
    → Linked m (entry_next m e) es
    → length es < fuel
    → last_entry fuel e m ≡ some (last_of e es)
unfolding last_entry
last_entry-last_of zero m e es l lt = absurd (omega arith)
last_entry-last_of (suc fuel) m e [] l lt = rw l refl
last_entry-last_of (suc fuel) m e (x ∷ xs) l lt =
    let set : (x == 0) ≡ false = ground arith in
    rw (l.0, set) (last_entry-last_of fuel m x xs l.4 (omega arith))

-- A new entry behind the last one.
Linked-append :
    (m : Bytes) (p e : ℕ) (es : List ℕ) (new : ℕ)
    → Linked m p (e ∷ es)
    → Apart new (e ∷ es)
    → new ≢ 0
    → new < 2 ^ 32
    → entry_next m new ≡ 0
    → Linked (set_entry_next (last_of e es) new m) p ((e ∷ es) ++ new ∷ [])
Linked-append m p e [] new (at_e, set, word, apart, rest) fresh new_set new_word end =
    let here = load32-store32 m (e + 16) new new_word in
    let there = set_entry_next-other m e new new (ground arith) ∙ end in
    (at_e, set, word, (ground arith, tt), (here, new_set, new_word, tt, there))
Linked-append m p e (x ∷ xs) new (at_e, set, word, apart, rest) fresh new_set new_word end =
    let m' = set_entry_next (last_of x xs) new m in
    let off = Apart-last_of e x xs apart in
    let kept = set_entry_next-other m (last_of x xs) new e (ground arith) in
    let tail = Linked-append m (entry_next m e) x xs new rest fresh.1 new_set new_word end in
    (at_e, set, word, Apart-append e (x ∷ xs) new apart (ground arith), rw (← kept) at tail)

-- For a pending queue that is a list of entries and an entry that shares no byte with them, is not
-- NULL and has no next entry, with fuel for their number, uhci_schedule_queue's search ends and
-- leaves a pending queue that is the list with the entry at its end.
pub enqueue-Linked :
    (fuel new : ℕ) (q : Queue) (es : List ℕ)
    → Linked q.bytes q.pending_queue es
    → Apart new es
    → new ≢ 0
    → new < 2 ^ 32
    → entry_next q.bytes new ≡ 0
    → length es ≤ fuel
    → (q' : Queue) × (enqueue fuel new q ≡ some q')
      × Linked q'.bytes q'.pending_queue (es ++ new ∷ [])
unfolding enqueue
enqueue-Linked fuel new q [] l fresh set word end lt =
    (record q { pending_queue = new }, rw l refl, (refl, set, word, tt, end))
enqueue-Linked fuel new q (e ∷ es) l fresh set word end lt =
    let first : (q.pending_queue == 0) ≡ false = ground arith in
    let found : last_entry fuel q.pending_queue q.bytes ≡ some (last_of e es) =
      rw l.0 (last_entry-last_of fuel q.bytes e es l.4 (omega arith)) in
    (
      record q { bytes = set_entry_next (last_of e es) new q.bytes },
      rw (first, found) refl,
      Linked-append q.bytes q.pending_queue e es new l fresh set word end,
    )
