-- ===== src/Uhci/Queue/Handlers.antt =====
-- The pending queue's handlers in uhci.c, as the loop of uhci_isr calls them.
use usbloader.Common.{
  ℕ, suc, ◌^◌, ◌<◌, ◌≡◌, ◌≢◌, refl, inl, inr, Bool, true, false, some, arith, ◌==◌, Bool-cases,
  if◌then◌else◌, List, [], ◌∷◌,
}
use usbloader.Memory.{Bytes}
use usbloader.Uhci.Queue.{
  Queue, entry_next, entry_handler, set_entry_next, completed, unlink, run_queue,
}
use usbloader.Uhci.Queue.Linked.{Disjoint, Apart, Linked}

-- The handlers leave the queue alone: at the watched entries they change no link and no status,
-- they neither queue nor free, and `effect` is what they do to the rest of the state.
pub record Quiet {ℓ} {W : Type ℓ} (call : (handler te : ℕ) → Queue → W → Queue × W)
    (I : Bytes → Type 0) (Watched : ℕ → Type 0) (done : ℕ → Bool) (effect : ℕ → W → W)
    : Type ℓ where
  pub status : (x : ℕ) (m : Bytes) → I m → Watched x → completed m x ≡ done x
  pub relink : (x v : ℕ) (m : Bytes) → I m → Watched x → I (set_entry_next x v m)
  pub pending :
      (x : ℕ) (q : Queue) (w : W)
      → I q.bytes
      → Watched x
      → (call (entry_handler q.bytes x) x q w).0.pending_queue ≡ q.pending_queue
  pub links :
      (x y : ℕ) (q : Queue) (w : W)
      → I q.bytes
      → Watched x
      → Watched y
      → entry_next (call (entry_handler q.bytes x) x q w).0.bytes y ≡ entry_next q.bytes y
  pub again :
      (x : ℕ) (q : Queue) (w : W)
      → I q.bytes
      → Watched x
      → I (call (entry_handler q.bytes x) x q w).0.bytes
  pub world :
      (x : ℕ) (q : Queue) (w : W)
      → I q.bytes
      → Watched x
      → (call (entry_handler q.bytes x) x q w).1 ≡ effect x w

-- The entries that stay, those that are finished, and the effects of a list in order.
abbrev pub waiting : (done : ℕ → Bool) → List ℕ → List ℕ
waiting done [] = []
waiting done (e ∷ es) = if done e then waiting done es else e ∷ waiting done es

abbrev pub finished : (done : ℕ → Bool) → List ℕ → List ℕ
finished done [] = []
finished done (e ∷ es) = if done e then e ∷ finished done es else finished done es

abbrev pub effects {ℓ} : {W : Type ℓ} (effect : ℕ → W → W) → List ℕ → W → W
effects effect [] w = w
effects effect (e ∷ es) w = effects effect es (effect e w)

abbrev pub AllWatched : (Watched : ℕ → Type 0) → List ℕ → Type 0
AllWatched Watched [] = Unit {0}
AllWatched Watched (e ∷ es) = Watched e × AllWatched Watched es

pub Apart-waiting : (done : ℕ → Bool) (a : ℕ) (es : List ℕ) → Apart a es → Apart a (waiting done es)
Apart-waiting done a [] apart = tt
Apart-waiting done a (e ∷ es) apart = elim (Bool-cases (done e)) [
  | inl f ↦ rw f (Apart-waiting done a es apart.1)
  | inr f ↦ rw f (apart.0, Apart-waiting done a es apart.1)
]

pub flip : (a b : ℕ) → Disjoint a b → Disjoint b a
flip a b (inl le) = inr le
flip a b (inr le) = inl le

pub Linked-word : (m : Bytes) (p : ℕ) (es : List ℕ) → Linked m p es → p < 2 ^ 32
Linked-word m p [] l = omega arith
Linked-word m p (e ∷ es) l = omega arith

module _ {ℓ} {W : Type ℓ} (call : (handler te : ℕ) → Queue → W → Queue × W) where
  pub run_nil :
      (fuel prev : ℕ) (q : Queue) (w : W) → run_queue call (suc fuel) prev 0 q w ≡ some (q, w)
  unfolding run_queue
  run_nil fuel prev q w = refl

  pub run_removed :
      (fuel prev entry : ℕ) (q q_1 : Queue) (w : W)
      → entry ≢ 0
      → completed q.bytes entry ≡ true
      → unlink prev entry q ≡ q_1
      → run_queue call (suc fuel) prev entry q w ≡ (
          let (q_2, w_2) = call (entry_handler q_1.bytes entry) entry q_1 w in
          run_queue call fuel prev (entry_next q_1.bytes entry) q_2 w_2)
  unfolding run_queue
  run_removed fuel prev entry q q_1 w set fin removed =
      let more : (entry == 0) ≡ false = ground arith in rw (more, fin, removed) refl

  pub run_kept :
      (fuel prev entry : ℕ) (q : Queue) (w : W)
      → entry ≢ 0
      → completed q.bytes entry ≡ false
      → run_queue call (suc fuel) prev entry q w
        ≡ run_queue call fuel entry (entry_next q.bytes entry) q w
  unfolding run_queue
  run_kept fuel prev entry q w set wait =
      let more : (entry == 0) ≡ false = ground arith in rw (more, wait) refl
