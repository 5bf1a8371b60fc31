-- ===== src/Uhci/Requests/Actions.antt =====
-- The steps of a request of uhci.c, by what each of its calls answers.
use usbloader.Common.{ℕ, ◌≡◌, refl, ◌∙◌, Bool, true, Option, some}
use usbloader.Memory.{store8}
use usbloader.Heap.{Heap, memalloc, memfree}
use usbloader.Heap.Contents.Calls.{}
use usbloader.Heap.Contents.Holders.{}
use usbloader.Heap.Promise.{}
use usbloader.Uhci.Queue.{Queue, uhci_schedule_queue}
use usbloader.Uhci.Requests.{
  Machine, bytes_of, with_bytes, Act, ◌>>=◌, pure, on_heap, schedule, release, modify, write_entry,
  uhci_wait_entry_complete, run_transfer, sizeof_transfer_entry,
}
use usbloader.Uhci.Requests.Entry.{}

module _ {ℓ} {W : Type ℓ} where
  pub bind-some :
      {A B : Type 0} (a : Act W A) (f : A → Act W B) (s s' : Machine W) (x : A)
      → a s ≡ some (x, s')
      → (a >>= f) s ≡ f x s'
  bind-some a f s s' x e = rw (◌>>=◌, e) refl

  pub on_heap-some :
      {A : Type 0} (f : Heap → Option (A × Heap)) (s : Machine W) (x : A) (h : Heap)
      → f s.heap ≡ some (x, h)
      → on_heap f s ≡ some (x, record s { heap = h })
  on_heap-some f s x h e = rw (on_heap, e) refl

  pub release-some :
      (f : Heap → Option Heap) (s : Machine W) (h : Heap)
      → f s.heap ≡ some h
      → release f s ≡ some (tt, record s { heap = h })
  release-some f s h e = rw (release, e) refl

  schedule-some :
      (fuel queue entry : ℕ) (s : Machine W) (q : Queue)
      → uhci_schedule_queue fuel queue entry
          (record { pending_queue = s.pending_queue; bytes = bytes_of s })
        ≡ some q
      → schedule fuel queue entry s
        ≡ some (
          tt,
          record s { heap = record (s.heap) { bytes = q.bytes }; pending_queue = q.pending_queue },
        )
  schedule-some fuel queue entry s q e = rw (schedule, e) refl

  module _ (hlt : Machine W → Machine W) (fuel halts callback queue done td ntd te : ℕ) where
    -- The rest of run_transfer once the entry is queued, and once it is allocated.
    abbrev finish : ℕ → Act W Bool
    finish entry = do
      result ← uhci_wait_entry_complete hlt halts entry
      _ ← release (memfree fuel entry)
      pure result

    abbrev serve : ℕ → Act W Bool
    serve entry = do
      _ ← modify (write_entry entry td ntd callback done)
      _ ← schedule fuel queue entry
      finish entry

    pub run_transfer_steps :
        (s s_4 : Machine W) (h_1 h_5 : Heap) (q : Queue)
        → memalloc fuel sizeof_transfer_entry
            (record (s.heap) { bytes = store8 (bytes_of s) done 0 })
          ≡ some (te, h_1)
        → uhci_schedule_queue fuel queue te (record {
          pending_queue = s.pending_queue;
          bytes = write_entry te td ntd callback done h_1.bytes;
        })
          ≡ some q
        → uhci_wait_entry_complete hlt halts te
            (record s { heap = record h_1 { bytes = q.bytes }; pending_queue = q.pending_queue })
          ≡ some (true, s_4)
        → memfree fuel te s_4.heap ≡ some h_5
        → run_transfer hlt fuel halts callback queue done td ntd s
          ≡ some (true, record s_4 { heap = h_5 })
    unfolding run_transfer
    run_transfer_steps s s_4 h_1 h_5 q call scheduled waited freed =
        let s_1 : Machine W = with_bytes (λ m. store8 m done 0) s in
        let s_2 : Machine W =
          with_bytes (write_entry te td ntd callback done) (record s { heap = h_1 }) in
        let s_3 : Machine W = record s {
          heap = record h_1 { bytes = q.bytes };
          pending_queue = q.pending_queue;
        } in
        bind-some (on_heap (memalloc fuel sizeof_transfer_entry)) serve s_1
          (record s { heap = h_1 }) te
          (on_heap-some (memalloc fuel sizeof_transfer_entry) s_1 te h_1 call)
        ∙ bind-some (schedule fuel queue te) (λ _. finish te) s_2 s_3 tt
            (schedule-some fuel queue te s_2 q scheduled)
        ∙ bind-some (uhci_wait_entry_complete hlt halts te)
            (λ r. release (memfree fuel te) >>= λ _. pure r) s_3 s_4 true waited
        ∙ bind-some (release (memfree fuel te)) (λ _. pure true) s_4 (record s_4 { heap = h_5 }) tt
            (release-some (memfree fuel te) s_4 h_5 freed)
