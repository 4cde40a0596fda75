-- ===== src/Vmm.antt =====
-- src/mem/vmm.c and src/include/mem/vmm.h: the ranges of virtual addresses of a task, kept in a fixed
-- array of blocks sorted by address. The caller's `vaddr` pointer is never null.
pub mod Cover
pub mod Moves
pub mod Valid
pub mod Edit
pub mod Grow
pub mod Apart
pub mod Add
pub mod Cut
pub mod Remove
pub mod Alloc
mod Tests
use clay_figure_kernel.Base.{
  ℕ, zero, suc, ◌+◌, ◌-◌, ◌≤◌, Bool, true, false, not, ◌&&◌, ◌||◌, Option, none, some, List, ltb,
  leb, ◌==◌, if◌then◌else◌, get_or, set, add64, sub64, Status, success, error, out_of_resource,
  not_found,
}

-- `vmm_block_t`.
pub record Block : Type 0 where
  pub start : ℕ
  pub size : ℕ

-- `vmm_struct_t`. `blocks` is the array from the pointer on; `IsValid` of Vmm/Valid.antt says that
-- it has `total_blocks` entries.
pub record Vmm : Type 0 where
  pub blocks : List Block
  pub total_blocks : ℕ
  pub using_blocks : ℕ

abbrev pub no_block : Block
no_block = record { start = 0; size = 0 }

-- `blocks[i]`.
abbrev pub entry : List Block → ℕ → Block
entry blocks i = get_or blocks i no_block

abbrev pub block_end : Block → ℕ
block_end b = add64 b.start b.size

pub vmm_struct_init : List Block → ℕ → Vmm
vmm_struct_init blocks total_blocks = record {
  blocks = blocks;
  total_blocks = total_blocks;
  using_blocks = 0;
}

-- `for (; i < using_blocks; i++) blocks[i] = blocks[i + 1]`, with `left` rounds to go.
pub forward_from : List Block → ℕ → ℕ → List Block
forward_from blocks i zero = blocks
forward_from blocks i (suc left) = forward_from (set blocks i (entry blocks (i + 1))) (i + 1) left

pub move_forward : Vmm → ℕ → Vmm
move_forward v index = record v { blocks = forward_from v.blocks index (v.using_blocks - index) }

-- `for (i = using_blocks; i > index; i--) blocks[i] = blocks[i - 1]`; with `left` rounds to go `i`
-- is `index + left`.
pub backward_to : List Block → ℕ → ℕ → List Block
backward_to blocks index zero = blocks
backward_to blocks index (suc left) =
    backward_to (set blocks (index + suc left) (entry blocks (index + left))) index left

pub move_backward : Vmm → ℕ → Vmm
move_backward v index = record v { blocks = backward_to v.blocks index (v.using_blocks - index) }

-- The first loop of `vmm_add_range`: the first block that begins above `start`.
pub find_above : List Block → ℕ → ℕ → ℕ → ℕ
find_above blocks start zero i = i
find_above blocks start (suc left) i =
    let rest = find_above blocks start left (i + 1) in
    if ltb start (entry blocks i).start then i else rest

-- The merge with block `i - 1`, and then with block `i`.
pub merge_previous : Vmm → ℕ → ℕ → ℕ → Status × Vmm
merge_previous v i start size =
    let previous = entry v.blocks (i - 1) in
    let grown = record previous { size = add64 previous.size size } in
    let blocks = set v.blocks (i - 1) grown in
    if i == v.using_blocks
    then (success, record v { blocks = blocks })
    else if add64 start size == (entry blocks i).start
    then (
      success,
      move_forward
          (record v {
            blocks =
                set blocks (i - 1) (record grown { size = add64 grown.size (entry blocks i).size });
            using_blocks = v.using_blocks - 1;
          })
          i,
    )
    else (success, record v { blocks = blocks })

-- `move_backward(vmm, i); using_blocks++; blocks[i] = b`.
pub insert_block : Vmm → ℕ → Block → Vmm
insert_block v i b =
    let moved = move_backward v i in
    record moved { blocks = set moved.blocks i b; using_blocks = v.using_blocks + 1 }

-- The rest of `vmm_add_range`, where the range does not join block `i - 1`.
pub add_apart : Vmm → ℕ → ℕ → ℕ → Status × Vmm
add_apart v i start size =
    if ltb i v.using_blocks && add64 start size == (entry v.blocks i).start
    then (
      success,
      record v {
        blocks =
            set v.blocks i (record { start = start; size = add64 (entry v.blocks i).size size });
      },
    )
    else if ltb v.using_blocks v.total_blocks
    then (success, insert_block v i (record { start = start; size = size }))
    else (error, v)

pub vmm_add_range : Vmm → ℕ → ℕ → Status × Vmm
vmm_add_range v start size =
    let i = find_above v.blocks start v.using_blocks 0 in
    if ltb 0 i && block_end (entry v.blocks (i - 1)) == start
    then merge_previous v i start size
    else add_apart v i start size

-- The loop of `vmm_remove_range`: the first block that holds `start` to `end`.
pub find_holder : List Block → ℕ → ℕ → ℕ → ℕ → ℕ
find_holder blocks start end zero i = i
find_holder blocks start end (suc left) i =
    let rest = find_holder blocks start end left (i + 1) in
    if leb (entry blocks i).start start && leb end (block_end (entry blocks i)) then i else rest

-- The four cases of `vmm_remove_range`, at the block `b` with index `i` that holds the range.
pub cut_block : Vmm → ℕ → Block → ℕ → ℕ → Status × Vmm
cut_block v i b start end =
    if start == b.start && end == block_end b
    then (success, move_forward (record v { using_blocks = v.using_blocks - 1 }) i)
    else if ltb b.start start && ltb end (block_end b)
    then (if leb v.total_blocks v.using_blocks
        then (out_of_resource, v)
        else let front = record b { size = sub64 start b.start } in
          let back : Block = record { start = end; size = sub64 (block_end b) end } in
          (success, insert_block (record v { blocks = set v.blocks i front }) (i + 1) back))
    else if start == b.start
    then (
      success,
      record v { blocks = set v.blocks i (record { start = end; size = sub64 (block_end b) end }) },
    )
    else if end == block_end b
    then (success, record v { blocks = set v.blocks i (record b { size = sub64 start b.start }) })
    else (error, v)

pub vmm_remove_range : Vmm → ℕ → ℕ → Status × Vmm
vmm_remove_range v start size =
    let end = add64 start size in
    let i = find_holder v.blocks start end v.using_blocks 0 in
    if leb v.using_blocks i then (not_found, v) else cut_block v i (entry v.blocks i) start end

-- The loop of `vmm_alloc`: the first block of at least `size` bytes.
pub find_large : List Block → ℕ → ℕ → ℕ → ℕ
find_large blocks size zero i = i
find_large blocks size (suc left) i =
    let rest = find_large blocks size left (i + 1) in
    if leb size (entry blocks i).size then i else rest

-- The option is what is stored through `vaddr`. The status of `vmm_remove_range` is ignored.
pub vmm_alloc : Vmm → ℕ → Status × Option ℕ × Vmm
vmm_alloc v size =
    let i = find_large v.blocks size v.using_blocks 0 in
    if ltb i v.using_blocks
    then (let start = (entry v.blocks i).start in
        let (_, v') = vmm_remove_range v start size in (success, some start, v'))
    else (out_of_resource, none, v)

find_from : List Block → ℕ → ℕ → ℕ → ℕ
find_from blocks addr zero i = 0
find_from blocks addr (suc left) i =
    let rest = find_from blocks addr left (i + 1) in
    if leb (entry blocks i).start addr && leb addr (block_end (entry blocks i)) then 1 else rest

pub vmm_find : Vmm → ℕ → ℕ
vmm_find v addr = find_from v.blocks addr v.using_blocks 0
