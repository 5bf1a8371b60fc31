-- ===== src/Uhci/Control/Delete.antt =====
-- uhci_delete_td_control of uhci.c: what uhci_create_td_control took is given back.
use usbloader.Common.{ℕ, ◌+◌, ◌≡◌, refl, ap, sym, ◌∙◌, some, List, [], ◌∷◌, ◌++◌}
use usbloader.Memory.{load32}
use usbloader.Heap.{Heap}
use usbloader.Heap.Contents.Calls.{Untouched, Untouched-trans, Untouched-Added, memfree-Untouched}
use usbloader.Heap.Owners.{Added}
use usbloader.Heap.Payloads.{payloads}
use usbloader.Heap.Promise.{HasPayloads, memfree-HasPayloads}
use usbloader.Heap.Reach.{enough, enough-lt}
use usbloader.Uhci.{read_td}
use usbloader.Uhci.Control.{uhci_delete_td_control}

-- Of two payloads that were added, the first can be taken out first.
record Swapped (p n q k : ℕ) (ps rs : List (ℕ × ℕ)) : Type 0 where
  between : List (ℕ × ℕ)
  outer : Added p n between rs
  inner : Added q k ps between

cons-Swapped :
    (x : ℕ × ℕ) (p n q k : ℕ) (ps rs : List (ℕ × ℕ))
    → Swapped p n q k ps rs
    → Swapped p n q k (x ∷ ps) (x ∷ rs)
cons-Swapped x p n q k ps rs s =
    let a = s.outer in
    let b = s.inner in
    record {
      between = x ∷ s.between;
      outer = record {
        front = x ∷ a.front;
        back = a.back;
        without = ap (λ xs. x ∷ xs) a.without;
        within = ap (λ xs. x ∷ xs) a.within;
      };
      inner = record {
        front = x ∷ b.front;
        back = b.back;
        without = ap (λ xs. x ∷ xs) b.without;
        within = ap (λ xs. x ∷ xs) b.within;
      };
    }

swap :
    (p n q k : ℕ) (f_1 g_1 f_2 g_2 : List (ℕ × ℕ))
    → f_1 ++ (p, n) ∷ g_1 ≡ f_2 ++ g_2
    → Swapped p n q k (f_1 ++ g_1) (f_2 ++ (q, k) ∷ g_2)
swap p n q k f_1 g_1 [] g_2 e = record {
  between = (q, k) ∷ f_1 ++ g_1;
  outer = record {
    front = (q, k) ∷ f_1;
    back = g_1;
    without = refl;
    within = ap (λ xs. (q, k) ∷ xs) (sym e);
  };
  inner = record { front = []; back = f_1 ++ g_1; without = refl; within = refl };
}
swap p n q k [] g_1 (y ∷ f_2) g_2 e =
    let tail : g_1 ≡ f_2 ++ g_2 = cc (e) in
    let head : (p, n) ≡ y = cc (e) in
    record {
      between = f_2 ++ (q, k) ∷ g_2;
      outer = record {
        front = [];
        back = f_2 ++ (q, k) ∷ g_2;
        without = refl;
        within = ap (λ x. x ∷ f_2 ++ (q, k) ∷ g_2) (sym head);
      };
      inner = record { front = f_2; back = g_2; without = tail; within = refl };
    }
swap p n q k (x ∷ f_1) g_1 (y ∷ f_2) g_2 e =
    let tail : f_1 ++ (p, n) ∷ g_1 ≡ f_2 ++ g_2 = cc (e) in
    let head : x ≡ y = cc (e) in
    rw head (
      cons-Swapped y p n q k (f_1 ++ g_1) (f_2 ++ (q, k) ∷ g_2) (swap p n q k f_1 g_1 f_2 g_2 tail))

Added-Swapped :
    (p n q k : ℕ) (ps qs rs : List (ℕ × ℕ))
    → Added p n ps qs
    → Added q k qs rs
    → Swapped p n q k ps rs
Added-Swapped p n q k ps qs rs a b =
    rw (a.without, b.within) (swap p n q k a.front a.back b.front b.back (sym a.within ∙ b.without))

-- Both payloads of a transfer are freed.
pub uhci_delete_td_control-HasPayloads :
    {lo hi : ℕ} {h : Heap} (dr n td k : ℕ) (ps qs rs : List (ℕ × ℕ))
    → HasPayloads lo hi h rs
    → Added dr n ps qs
    → Added td k qs rs
    → load32 h.bytes (td + 12) ≡ dr
    → (h' : Heap) × (uhci_delete_td_control (enough lo hi) td h ≡ some h')
      × HasPayloads lo hi h' ps
      × Untouched ps h.bytes h'.bytes
unfolding uhci_delete_td_control read_td
uhci_delete_td_control-HasPayloads {lo} {hi} {h} dr n td k ps qs rs held a b request =
    let s = Added-Swapped dr n td k ps qs rs a b in
    let first : Added dr n s.between (payloads lo held.cells) = rw held.row s.outer in
    let (h_1, freed, held_1) =
      memfree-HasPayloads (enough lo hi) dr n s.between held.heap (enough-lt held.heap) first in
    let second : Added td k ps (payloads lo held_1.cells) = rw held_1.row s.inner in
    let (h_2, freed', held_2) =
      memfree-HasPayloads (enough lo hi) td k ps held_1.heap (enough-lt held_1.heap) second in
    let kept =
      memfree-Untouched (enough lo hi) dr n s.between held.heap (enough-lt held.heap) first freed in
    let kept' =
      memfree-Untouched (enough lo hi) td k ps held_1.heap (enough-lt held_1.heap) second freed' in
    (
      h_2,
      rw (uhci_delete_td_control, request, freed, freed') refl,
      held_2,
      Untouched-trans ps h.bytes h_1.bytes h_2.bytes
          (Untouched-Added td k ps s.between h.bytes h_1.bytes s.inner kept) kept',
    )
