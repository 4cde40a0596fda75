-- ===== src/Ipc/Safe.antt =====
-- src/arch/x86_64/syscall/ipc.c: a task that is made ready in `msg_recv` finds what it was woken for.
use native.Mathlib.Decide.{ℕ_discrete}
use clay_figure_kernel.Base.{
  ℕ, ◌≤◌, ◌≡◌, ◌≢◌, ◌⊎◌, inl, inr, refl, ◌∙◌, ap, arith, Bool, true, false, List, [], ◌∷◌, ◌++◌,
  ◌==◌, if◌then◌else◌,
}
use clay_figure_kernel.Base.Update.{update, update_self, update_ne}
use clay_figure_kernel.Klist.Walk.{member}
use clay_figure_kernel.Ipc.{
  recv_from_any, recv_from_int, max_pid, Tasks, is_empty, received_from_any_task,
  received_from_intr, received_any_message, received_from,
}
use clay_figure_kernel.Ipc.Steps.{Phase, outside, sends, receives, received, Sys}

-- What a receiver is woken for: an interrupt, some message, or one of its source.
unfoldable pub can_take : Tasks → ℕ → ℕ → Bool
can_take s t src =
    if src == recv_from_int
    then received_from_intr s t
    else if src == recv_from_any
    then received_any_message s t
    else received_from s t src

abbrev pub IsSource : ℕ → Type 0
IsSource src = (src ≡ recv_from_any) ⊎ (src ≡ recv_from_int) ⊎ (src ≤ max_pid)

-- A blocked receiver's source and flag are in the table, and a woken one can take what it waits for.
pub record IsSafeAt (s : Tasks) (t : ℕ) (p : Phase) : Type 0 where
  pub blocked :
      (src : ℕ) → p ≡ receives src → (s.recv_flag t ≡ 1) × (s.recv_from t ≡ src) × IsSource src
  pub woken : (src : ℕ) → p ≡ received src → can_take s t src ≡ true

abbrev pub IsSafe : Sys → Type 0
IsSafe s = (t : ℕ) → IsSafeAt s.tasks t (s.phase t)

-- The step leaves the receiver `t` alone, but for messages and interrupts that come in.
pub record Grows (s s' : Tasks) (t : ℕ) : Type 0 where
  pub intr : received_from_intr s t ≡ true → received_from_intr s' t ≡ true
  pub full : is_empty (s.sender_list t) ≡ false → is_empty (s'.sender_list t) ≡ false
  pub list : (x : ℕ) → member x (s.sender_list t) ≡ true → member x (s'.sender_list t) ≡ true
  pub flag : s'.recv_flag t ≡ s.recv_flag t
  pub from : s'.recv_from t ≡ s.recv_from t

pub can_take-Grows :
    (s s' : Tasks) (t src : ℕ) → Grows s s' t → can_take s t src ≡ true → can_take s' t src ≡ true
unfolding can_take received_any_message received_from_any_task received_from
can_take-Grows s s' t src g h = ground (arith, g.list src)

pub IsSafeAt-Grows :
    (s s' : Tasks) (t : ℕ) (p : Phase) → Grows s s' t → IsSafeAt s t p → IsSafeAt s' t p
IsSafeAt-Grows s s' t p g safe = record {
  blocked = λ src e.
      let (flag, from, source) = safe.blocked src e in (g.flag ∙ flag, g.from ∙ from, source);
  woken = λ src e. can_take-Grows s s' t src g (safe.woken src e);
}

-- Outside of `msg_recv` there is nothing to keep.
pub idle-IsSafeAt : (s : Tasks) (t : ℕ) (p : Phase) → (p ≡ outside) ⊎ (p ≡ sends) → IsSafeAt s t p
idle-IsSafeAt s t p (inl e) = record { blocked = λ src e'. cc; woken = λ src e'. cc }
idle-IsSafeAt s t p (inr e) = record { blocked = λ src e'. cc; woken = λ src e'. cc }

-- A step of the task `who`, which is at `p` afterwards.
pub of_others :
    (s : Sys) (s' : Tasks) (who : ℕ) (p : Phase)
    → IsSafe s
    → ((t : ℕ) → who ≢ t → Grows s.tasks s' t)
    → IsSafeAt s' who p
    → IsSafe (record { tasks = s'; phase = update s.phase who p })
of_others s s' who p safe grows own t = elim (ℕ_discrete who t) [
  | yes e ↦ rw (← e, update_self s.phase who p) own
  | no ne ↦
      rw (update_ne s.phase who p t ne)
        (IsSafeAt-Grows s.tasks s' t (s.phase t) (grows t ne) (safe t))
]

pub same-Grows : (s : Tasks) (t : ℕ) → Grows s s t
same-Grows s t = record { intr = λ h. h; full = λ h. h; list = λ x h. h; flag = refl; from = refl }

member-append : (x y : ℕ) (xs : List ℕ) → member x xs ≡ true → member x (xs ++ y ∷ []) ≡ true
unfolding member
member-append x y [] h = cc
member-append x y (z ∷ xs) h = ground (arith, member-append x y xs)

is_empty-append : (y : ℕ) (xs : List ℕ) → is_empty (xs ++ y ∷ []) ≡ false
is_empty-append y [] = refl
is_empty-append y (x ∷ xs) = refl

-- Who sends is put at the end of one list.
pub queued-Grows :
    (s s' : Tasks) (sender dst t : ℕ)
    → s'.sender_list ≡ update s.sender_list dst (s.sender_list dst ++ sender ∷ [])
    → s'.has_intr_msg ≡ s.has_intr_msg
    → s'.recv_flag ≡ s.recv_flag
    → s'.recv_from ≡ s.recv_from
    → Grows s s' t
unfolding received_from_intr
queued-Grows s s' sender dst t lists intr flag from = elim (ℕ_discrete dst t) [
  | yes e ↦
      let own =
        ap (λ (f : ℕ → List ℕ). f t) lists
        ∙ ap (λ (d : ℕ). update s.sender_list d (s.sender_list d ++ sender ∷ []) t) e
        ∙ update_self s.sender_list t (s.sender_list t ++ sender ∷ []) in
      record {
        intr = λ h. rw intr h;
        full = λ h. rw own (is_empty-append sender (s.sender_list t));
        list = λ x h. rw own (member-append x sender (s.sender_list t) h);
        flag = rw flag refl;
        from = rw from refl;
      }
  | no ne ↦
      let own =
        ap (λ (f : ℕ → List ℕ). f t) lists
        ∙ update_ne s.sender_list dst (s.sender_list dst ++ sender ∷ []) t ne in
      record {
        intr = λ h. rw intr h;
        full = λ h. rw own h;
        list = λ x h. rw own h;
        flag = rw flag refl;
        from = rw from refl;
      }
]
