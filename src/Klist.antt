-- ===== src/Klist.antt =====
-- src/lib/list.c and src/include/lib/list.h: the intrusive doubly linked lists of the kernel.
-- A node is its address, and `list` the address of a `list_t`, whose first field is `head`. Two
-- nodes at different addresses do not overlap.
-- An access through NULL is a page fault, and `panic` here. `list_len` counts in an `int`: lists are
-- shorter than 2^31.
pub mod Chain
pub mod Edit
pub mod Ops
pub mod Walk
pub mod Samples
mod Tests
use clay_figure_kernel.Base.{
  ℕ, zero, suc, ◌+◌, ◌≡◌, Bool, true, false, Option, none, some, ◌==◌, if◌then◌else◌, Run, done,
  panic, spin, ◌>>=◌,
}

-- The `prev` and the `next` of the `list_node_t` at each address.
pub record Nodes : Type 0 where
  pub prev : ℕ → ℕ
  pub next : ℕ → ℕ

abbrev pub null : ℕ
null = 0

abbrev pub list_head : ℕ → ℕ
list_head list = list

abbrev pub list_tail : ℕ → ℕ
list_tail list = list + 16

unfoldable pub put : (ℕ → ℕ) → ℕ → ℕ → ℕ → ℕ
put f a value x = if x == a then value else f x

abbrev pub put_prev : Nodes → ℕ → ℕ → Nodes
put_prev h a value = record h { prev = put h.prev a value }

abbrev pub put_next : Nodes → ℕ → ℕ → Nodes
put_next h a value = record h { next = put h.next a value }

-- The access `a->...` and what comes after it.
unfoldable pub through {ℓ} : {A : Type ℓ} → ℕ → Run A → Run A
through a rest = if a == null then panic else rest

pub list_next : Nodes → ℕ → Run ℕ
list_next h node = through node (done (h.next node))

pub list_prev : Nodes → ℕ → Run ℕ
list_prev h node = through node (done (h.prev node))

pub init_list : Nodes → ℕ → Nodes
init_list h list =
    let h1 = put_prev h (list_head list) null in
    let h2 = put_next h1 (list_head list) (list_tail list) in
    let h3 = put_prev h2 (list_tail list) (list_head list) in put_next h3 (list_tail list) null

pub list_in : Nodes → ℕ → ℕ → Run Nodes
list_in h node in_before = through in_before (
    through (h.prev in_before) (
      through node (
        let h1 = put_next h (h.prev in_before) node in
        let h2 = put_prev h1 node (h1.prev in_before) in
        let h3 = put_next h2 node in_before in done (put_prev h3 in_before node))))

pub list_push : Nodes → ℕ → ℕ → Run Nodes
list_push h list node = list_in h node (h.next (list_head list))

pub list_append : Nodes → ℕ → ℕ → Run Nodes
list_append h list node = list_in h node (list_tail list)

unfoldable pub list_remove : Nodes → ℕ → Run Nodes
list_remove h node = through node (
    through (h.prev node) (
      let h1 = put_next h (h.prev node) (h.next node) in
      through (h1.next node) (
        let h2 = put_prev h1 (h1.next node) (h1.prev node) in
        let h3 = put_next h2 node null in done (put_prev h3 node null))))

pub list_pop : Nodes → ℕ → Run (ℕ × Nodes)
list_pop h list =
    list_remove h (h.next (list_head list)) >>= λ h'. done (h.next (list_head list), h')

-- The loops run on fuel, one unit for a node.
pub find_loop : Nodes → ℕ → ℕ → ℕ → ℕ → Run Bool
find_loop h list objnode zero node = spin
find_loop h list objnode (suc fuel) node =
    let rest = find_loop h list objnode fuel (h.next node) in
    if node == list_tail list
    then done false
    else if node == objnode
    then done true
    else through node rest

pub list_find : Nodes → ℕ → ℕ → ℕ → Run Bool
list_find h list objnode fuel = find_loop h list objnode fuel (h.next (list_head list))

-- `func` is the caller's; its state is not part of the list.
pub traversal_loop : Nodes → ℕ → (ℕ → ℕ → Bool) → ℕ → ℕ → ℕ → Run ℕ
traversal_loop h list func arg zero node = spin
traversal_loop h list func arg (suc fuel) node =
    let rest = traversal_loop h list func arg fuel (h.next node) in
    if node == list_tail list
    then done null
    else if func node arg
    then done node
    else through node rest

pub list_traversal : Nodes → ℕ → (ℕ → ℕ → Bool) → ℕ → ℕ → Run ℕ
list_traversal h list func arg fuel = traversal_loop h list func arg fuel (h.next (list_head list))

pub len_loop : Nodes → ℕ → ℕ → ℕ → ℕ → Run ℕ
len_loop h list zero len node = spin
len_loop h list (suc fuel) len node =
    let rest = len_loop h list fuel (len + 1) (h.next node) in
    if node == list_tail list then done len else through node rest

pub list_len : Nodes → ℕ → ℕ → Run ℕ
list_len h list fuel = len_loop h list fuel 0 (h.next (list_head list))

unfoldable pub list_empty : Nodes → ℕ → Bool
list_empty h list = h.next (list_head list) == list_tail list
