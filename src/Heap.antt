-- ===== src/Heap.antt =====
-- src/mem/allocator.c and src/include/mem/allocator.h: the kernel's heap. A block and a cache are their
-- addresses; the fields of a cache and of a free block are functions of them, and the fields of another
-- object at an address that is cleared are 0 then. What else a block holds is not modelled. A group is
-- its index, `none` is the null pointer to one, and the running task's `preempt_count` is kept with the
-- lock of the page pool. The log lines are left out. A walk runs on fuel, as in Klist.
pub mod Search
pub mod Suits
pub mod Wiped
pub mod Locks
pub mod Found
pub mod Kmalloc
pub mod Samples
mod Tests
use clay_figure_kernel.Base.{
  ℕ, zero, suc, ◌+◌, ◌-◌, ◌*◌, ◌/◌, ◌%◌, ◌^◌, Bool, true, false, not, ◌&&◌, ◌||◌, Option, none,
  some, List, [], ◌∷◌, ltb, leb, ◌==◌, if◌then◌else◌, get_or, set, bit_and, u32, add64, sub64,
  mul64, Status, success, error, not_found, is_error, Run, done, panic, spin, ◌>>=◌, ◌>>◌, assert,
}
use clay_figure_kernel.Base.Update.{update}
use mathlib.Core.Option
use clay_figure_kernel.Sync.{Spinlock, spinlock_lock, spinlock_unlock}
use clay_figure_kernel.Klist.{
  Nodes, list_head, list_tail, through, init_list, list_append, list_remove, list_empty,
}
use clay_figure_kernel.Page.{pg_size, Mem, alloc_physical_page, free_physical_page}
use clay_figure_kernel.PageTable.{phys_to_virt, virt_to_phys}

abbrev pub min_allocate_memory_size : ℕ
min_allocate_memory_size = 64

abbrev pub max_allocate_memory_size : ℕ
max_allocate_memory_size = 262144

abbrev pub number_of_memory_block_types : ℕ
number_of_memory_block_types = 13

-- A `mem_group_t`; `free_block_list` is the address of its list.
pub record Group : Type 0 where
  pub block_size : ℕ
  pub total_free : ℕ
  pub free_block_list : ℕ
  pub lock : ℕ

-- The groups, the fields of each `mem_cache_t` and `mem_block_t`, and the page pool.
pub record Heap : Type 0 where
  pub mem_groups : List Group
  pub group : ℕ → Option ℕ
  pub number_of_blocks : ℕ → ℕ
  pub cnt : ℕ → ℕ
  pub magic : ℕ → ℕ
  pub nodes : Nodes
  pub pool : Mem

abbrev pub no_group : Group
no_group = record { block_size = 0; total_free = 0; free_block_list = 0; lock = 0 }

abbrev pub group_at : Heap → ℕ → Group
group_at h i = get_or h.mem_groups i no_group

abbrev pub put_group : Heap → ℕ → Group → Heap
put_group h i g = record h { mem_groups = set h.mem_groups i g }

-- The loop of `mem_allocator_init`, where the lists stand from `list` on, 48 bytes apart.
pub init_groups : Heap → ℕ → ℕ → ℕ → ℕ → Heap
init_groups h i block_size list zero = h
init_groups h i block_size list (suc n) =
    init_groups
      (record h {
        mem_groups =
            set h.mem_groups i (record {
              block_size = block_size;
              total_free = 0;
              free_block_list = list;
              lock = 1;
            });
        nodes = init_list h.nodes list;
      })
      (i + 1) (block_size * 2) (list + 48) n

pub mem_allocator_init : Heap → ℕ → Heap
mem_allocator_init h list =
    init_groups h 0 min_allocate_memory_size list number_of_memory_block_types

-- The node of a block, and the block of a node.
abbrev pub node_of : ℕ → ℕ
node_of b = add64 b 8

abbrev pub block_of : ℕ → ℕ
block_of node = sub64 node 8

-- `c->group->block_size`.
pub size_of : Heap → ℕ → Run ℕ
size_of h c = elim (h.group c) [ none ↦ panic | some i ↦ done (group_at h i).block_size ]

pub cache2block : Heap → ℕ → ℕ → Run ℕ
cache2block h c idx = size_of h c >>= λ size. done (add64 (add64 c size) (mul64 idx size))

abbrev pub block2cache : ℕ → ℕ
block2cache b = b - b % pg_size

pub block_index : Heap → ℕ → ℕ → Run ℕ
block_index h c b = size_of h c >>= λ size. done (sub64 b (add64 c size) / size)

-- `ASSERT(node->next->prev == node)`.
pub assert_linked : Nodes → ℕ → Run (Unit {0})
assert_linked nodes node =
    through node (through (nodes.next node) (assert (nodes.prev (nodes.next node) == node)))

-- The tests of the loop on a block: aligned, and inside one stretch of `boundary` bytes.
pub fits : ℕ → ℕ → ℕ → ℕ → Bool
fits size alignment boundary b =
    (bit_and b (sub64 alignment 1) == 0)
    && (boundary == 0 || (b / boundary == sub64 (add64 b size) 1 / boundary))

pub search_loop : Heap → ℕ → ℕ → ℕ → ℕ → ℕ → ℕ → Run (Option ℕ)
search_loop h list size alignment boundary zero node = spin
search_loop h list size alignment boundary (suc fuel) node =
    let rest = search_loop h list size alignment boundary fuel (h.nodes.next node) in
    let b = block_of node in
    let c = block2cache b in
    if node == list_tail list
    then done none
    else (block_index h c b >>= λ idx.
        assert (h.magic b == add64 idx (h.number_of_blocks c))
        >> (assert_linked h.nodes node
            >> (if fits size alignment boundary b then done (some node) else rest)))

-- The label `done`.
pub take_node : Heap → ℕ → Run (Option ℕ × Heap)
take_node h node =
    list_remove h.nodes node >>= λ nodes. done (some (block_of node), record h { nodes = nodes })

pub kmalloc_find_block : Heap → ℕ → ℕ → ℕ → ℕ → ℕ → Run (Option ℕ × Heap)
kmalloc_find_block h list size alignment boundary fuel =
    let node = h.nodes.next (list_head list) in
    assert_linked h.nodes node
    >> (if leb alignment size && boundary == 0
        then take_node h node
        else search_loop h list size alignment boundary fuel node >>= λ found. elim found [
          | none ↦ done (none, h)
          | some n ↦ take_node h n
        ])

-- The first group whose blocks are large enough.
pub find_group : List Group → ℕ → ℕ → Option ℕ
find_group [] size i = none
find_group (g ∷ groups) size i =
    let rest = find_group groups size (i + 1) in if leb size g.block_size then some i else rest

pub lock_group : Heap → ℕ → Run Heap
lock_group h i =
    let g = group_at h i in
    spinlock_lock (record { lock = g.lock; preempt_count = h.pool.lock.preempt_count }) >>= λ l.
    done (record h {
      mem_groups = set h.mem_groups i (record g { lock = l.lock });
      pool = record h.pool { lock = record h.pool.lock { preempt_count = l.preempt_count } };
    })

pub unlock_group : Heap → ℕ → Heap
unlock_group h i =
    let g = group_at h i in
    let l = spinlock_unlock (record { lock = g.lock; preempt_count = h.pool.lock.preempt_count }) in
    record h {
      mem_groups = set h.mem_groups i (record g { lock = l.lock });
      pool = record h.pool { lock = record h.pool.lock { preempt_count = l.preempt_count } };
    }

-- `memset(addr, 0, size)` on the fields.
pub wipe : Heap → ℕ → ℕ → Heap
wipe h addr size =
    let inside : ℕ → Bool = λ x. leb addr x && ltb x (addr + size) in
    record h {
      group = λ c. if inside c then none else h.group c;
      number_of_blocks = λ c. if inside c then 0 else h.number_of_blocks c;
      cnt = λ c. if inside c then 0 else h.cnt c;
      magic = λ b. if inside b then 0 else h.magic b;
      nodes = record {
        prev = λ x. if inside x then 0 else h.nodes.prev x;
        next = λ x. if inside x then 0 else h.nodes.next x;
      };
    }

pub fill_loop : Heap → ℕ → ℕ → ℕ → ℕ → Run Heap
fill_loop h list c idx zero = done h
fill_loop h list c idx (suc n) = cache2block h c idx >>= λ b.
    list_append h.nodes list (node_of b) >>= λ nodes.
    fill_loop
      (record h { nodes = nodes; magic = update h.magic b (add64 idx (h.number_of_blocks c)) }) list
      c (idx + 1) n

-- A new page for a group that has no free block.
pub new_cache : Heap → ℕ → ℕ → Run Heap
new_cache h i cache_paddr =
    let c = phys_to_virt cache_paddr in
    let h1 = wipe h c pg_size in
    let g = group_at h1 i in
    let n = sub64 (pg_size / g.block_size) 1 in
    fill_loop
      (put_group
        (record h1 {
          group = update h1.group c (some i);
          number_of_blocks = update h1.number_of_blocks c n;
          cnt = update h1.cnt c n;
        })
        i (record g { total_free = u32 (g.total_free + n) }))
      g.free_block_list c 0 n

pub refill : Heap → ℕ → Run (Status × Heap)
refill h i =
    if list_empty h.nodes (group_at h i).free_block_list
    then alloc_physical_page h.pool 1 >>= (λ (status, addr, pool).
      if is_error status
      then done (status, record h { pool = pool })
      else new_cache (record h { pool = pool }) i (Option.get_or addr 0) >>= λ h'.
          done (success, h'))
    else done (success, h)

-- The end of `kmalloc`, with the block.
pub hand_out : Heap → ℕ → ℕ → Run (Status × Option ℕ × Heap)
hand_out h i b =
    let h1 = wipe h b (group_at h i).block_size in
    let c = block2cache b in
    elim (h1.group c) [
      | none ↦ panic
      | some j ↦
          let g = group_at h1 j in
          let h2 = record h1 { cnt = update h1.cnt c (sub64 (h1.cnt c) 1) } in
          let h3 = put_group h2 j (record g { total_free = u32 (g.total_free + (2 ^ 32 - 1)) }) in
          done (success, some b, unlock_group h3 i)
    ]

-- `kmalloc` behind the choice of the group.
pub kmalloc_from : Heap → ℕ → ℕ → ℕ → ℕ → ℕ → Run (Status × Option ℕ × Heap)
kmalloc_from h i size alignment boundary fuel = lock_group h i >>= λ h1.
    refill h1 i >>= λ (status, h2).
    if is_error status
    then done (status, none, unlock_group h2 i)
    else (kmalloc_find_block h2 (group_at h2 i).free_block_list size alignment boundary fuel
        >>= λ (b, h3). elim b [
          | none ↦ done (not_found, none, h3)
          | some addr ↦ hand_out h3 i addr
        ])

-- The option is what is stored through `addr`, which is not null.
pub kmalloc : Heap → ℕ → ℕ → ℕ → ℕ → Run (Status × Option ℕ × Heap)
kmalloc h size alignment boundary fuel =
    let alignment = if ltb alignment size then size else alignment in
    if ltb max_allocate_memory_size size
    then done (error, none, h)
    else elim (find_group h.mem_groups size 0) [
      | none ↦ panic
      | some i ↦ kmalloc_from h i size alignment boundary fuel
    ]

pub drain_loop : Heap → ℕ → ℕ → ℕ → Run Heap
drain_loop h c idx zero = done h
drain_loop h c idx (suc n) = cache2block h c idx >>= λ b.
    assert (h.magic b == add64 idx (h.number_of_blocks c))
    >> (list_remove h.nodes (node_of b) >>= λ nodes.
        drain_loop (record h { nodes = nodes }) c (idx + 1) n)

-- `kfree` behind the lock: the block goes to the list, and a cache whose blocks are all free is given
-- back to the page pool.
pub give_back : Heap → ℕ → ℕ → ℕ → Run Heap
give_back h i c b =
    let g = group_at h i in
    let n = h.number_of_blocks c in
    list_append h.nodes g.free_block_list (node_of b) >>= λ nodes.
    let h1 =
      put_group (record h { nodes = nodes; cnt = update h.cnt c (add64 (h.cnt c) 1) }) i
        (record g { total_free = u32 (g.total_free + 1) }) in
    if add64 (h.cnt c) 1 == n
    then drain_loop h1 c 0 n >>= (λ h2.
      let g2 = group_at h2 i in
      let h3 =
        put_group h2 i (record g2 { total_free = u32 (g2.total_free + 2 ^ 32 - n % 2 ^ 32) }) in
      free_physical_page h3.pool (virt_to_phys c) 1 >>= λ pool. done (record h3 { pool = pool }))
    else done h1

pub kfree : Heap → ℕ → Run Heap
kfree h addr =
    let c = block2cache addr in
    if addr == 0
    then done h
    else (block_index h c addr >>= λ idx.
        let h1 = record h { magic = update h.magic addr (add64 idx (h.number_of_blocks c)) } in
        elim (h1.group c) [
          | none ↦ panic
          | some i ↦
              assert (bit_and addr (sub64 (group_at h1 i).block_size 1) == 0)
              >> (lock_group h1 i >>= λ h2.
                  give_back h2 i c addr >>= λ h3. done (unlock_group h3 i))
        ])
